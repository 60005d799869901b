-- ===== src/Track/Sharing.antt =====
-- No two tracked futures that run share a track.
use pluvio.Base.{
  ℕ, ◌+◌, ◌-◌, ◌%◌, ◌^◌, ◌≤◌, ◌<◌, ◌≡◌, ◌≢◌, refl, sym, ap, subst, ◌∙◌, inl, inr, Bool, false,
  Option, none, some, List, [], ◌∷◌, ◌==◌, ==_iff, ==_refl, if◌then◌else◌, Poll, ready, suc, true,
  pending, Bool-cases, Option-cases, arith,
}
use pluvio.Track.{Tracks, no_tracks, next_track, held_id, acquire, release, poll_tracked}
use pluvio.Track.Ids.{
  Avoids, Distinct, Given, Given-Avoids, Given-suc, Given-append, Avoids-append, Distinct-append,
}

-- Futures go by number; `ids` tells which of them hold an id.
pub record World : Type 0 where
  pub tracks : Tracks
  pub ids : ℕ → Option ℕ

-- Polls one after another: of which future, the polls of tracked futures that its inner future makes
-- meanwhile, and whether it is done.
pub data Polls : Type 0 where
  no_more : Polls
  poll_of : (future : ℕ) (within : Polls) (is_done : Bool) (later : Polls) → Polls

abbrev pub hold : ℕ → Option ℕ → (ℕ → Option ℕ) → ℕ → Option ℕ
hold i a f j = if j == i then a else f j

-- The field `track_id` of a future is set before its inner future is polled.
unfoldable pub all_polled : Polls → World → World
all_polled no_more w = w
all_polled (poll_of i within is_done later) w =
    let inner : (ℕ → Option ℕ) → Tracks → (ℕ → Option ℕ) × Tracks × Poll (Unit {0}) = λ ids s.
      (let v = all_polled within (record { tracks = s; ids = hold i (some s.current) ids }) in
        (v.ids, v.tracks, if is_done then ready tt else pending)) in
    let (id, ids, tracks, result) = poll_tracked inner (w.ids i) w.ids w.tracks in
    all_polled later (record { tracks = tracks; ids = hold i id ids })

-- How many polls there are.
unfoldable pub count : Polls → ℕ
count no_more = 0
count (poll_of i within is_done later) = suc (count within + count later)

-- The future `i` is not among those that are polled.
unfoldable pub Without : ℕ → Polls → Type 0
Without i no_more = Unit
Without i (poll_of j within is_done later) = (i ≢ j) × Without i within × Without i later

-- No future is polled within itself: a poll borrows its future alone.
unfoldable pub IsNested : Polls → Type 0
IsNested no_more = Unit
IsNested (poll_of i within is_done later) = Without i within × IsNested within × IsNested later

-- Ids that are held are given out, different, and not available.
pub record IsShared (w : World) : Type 0 where
  pub started : 0 < w.tracks.next_id
  pub distinct : Distinct w.tracks.available_ids
  pub given : Given w.tracks.next_id w.tracks.available_ids
  pub held : (i a : ℕ) → w.ids i ≡ some a → (0 < a) × (a < w.tracks.next_id)
  pub away : (i a : ℕ) → w.ids i ≡ some a → Avoids a w.tracks.available_ids
  pub apart : (i j a : ℕ) → w.ids i ≡ some a → w.ids j ≡ some a → i ≡ j

-- A future that holds no id gets one that nobody has.
granted :
    (i id : ℕ) (w : World) (s : Tracks)
    → IsShared w
    → Distinct s.available_ids
    → Given s.next_id s.available_ids
    → (0 < id) × (id < s.next_id)
    → w.tracks.next_id ≤ s.next_id
    → Avoids id s.available_ids
    → ((j a : ℕ) → w.ids j ≡ some a → Avoids a s.available_ids × (a ≢ id))
    → IsShared (record { tracks = s; ids = hold i (some id) w.ids })
granted i id w s g d v f m n o = record {
  started = omega (arith, f.0, f.1);
  distinct = d;
  given = v;
  held = λ j a q. elim (Bool-cases (j == i)) [
    | inl y ↦ ground (arith, q, y, f.0, f.1)
    | inr y ↦ let (p, l) = g.held j a (ground (arith, q, y)) in (p, omega (arith, l, m))
  ];
  away = λ j a q. elim (Bool-cases (j == i)) [
    | inl y ↦ subst (λ a. Avoids a s.available_ids) {x = id} {y = a} (ground (arith, q, y)) n
    | inr y ↦ (o j a (ground (arith, q, y))).0
  ];
  apart = λ j k a q r. elim (Bool-cases (j == i)) [
    | inl y ↦ elim (Bool-cases (k == i)) [
      | inl z ↦ (==_iff j i).0 y ∙ sym ((==_iff k i).0 z)
      | inr z ↦ absurd ((o k a (ground (arith, r, z))).1 (ground (arith, q, y)))
    ]
    | inr y ↦ elim (Bool-cases (k == i)) [
      | inl z ↦ absurd ((o j a (ground (arith, q, y))).1 (ground (arith, r, z)))
      | inr z ↦ g.apart j k a (ground (arith, q, y)) (ground (arith, r, z))
    ]
  ];
}

next_track-IsShared :
    (i : ℕ) (w : World) (xs : List ℕ)
    → w.tracks.available_ids ≡ xs
    → IsShared w
    → w.tracks.next_id < 2 ^ 64 - 1
    → IsShared (record {
      tracks = (next_track w.tracks xs).1;
      ids = hold i (some (next_track w.tracks xs).0) w.ids;
    })
unfolding Given Avoids Distinct
next_track-IsShared i w [] e g h =
    let n = w.tracks.next_id in
    let small : (n + 1) % 2 ^ 64 ≡ n + 1 = omega (arith, h) in
    rw (small) (
      granted i n w (record w.tracks { next_id = n + 1 }) g g.distinct
        (Given-suc n w.tracks.available_ids g.given) (g.started, omega arith) (omega arith)
        (Given-Avoids n w.tracks.available_ids g.given)
        (λ j a q. (g.away j a q, λ z. omega (arith, z, (g.held j a q).1))))
next_track-IsShared i w (x ∷ xs) e g h =
    let (p, d) = subst Distinct e g.distinct in
    let (f, v) = subst (Given w.tracks.next_id) e g.given in
    granted i x w (record w.tracks { available_ids = xs }) g d v f (omega arith) p
      (λ j a q. (let (n, o) = subst (Avoids a) e (g.away j a q) in (o, n)))

-- A future that is done gives its id back.
released-IsShared :
    (i id : ℕ) (w : World)
    → IsShared w
    → w.ids i ≡ some id
    → IsShared (record { tracks = release id w.tracks; ids = hold i none w.ids })
unfolding release
released-IsShared i id w g n =
    let (p, l) = g.held i id n in
    let z : (id == 0) ≡ false = ground (arith, p) in
    rw (z) (record {
      started = g.started;
      distinct = Distinct-append id w.tracks.available_ids g.distinct (g.away i id n);
      given = Given-append w.tracks.next_id id w.tracks.available_ids g.given p l;
      held = λ j a q. g.held j a (still j a q);
      away = λ j a q.
          Avoids-append a id w.tracks.available_ids (g.away j a (still j a q))
            (λ y. differs j a q (g.apart j i a (still j a q) (n ∙ ap some (sym y))));
      apart = λ j k a q r. g.apart j k a (still j a q) (still k a r);
    })
  where
    still : (j a : ℕ) → hold i none w.ids j ≡ some a → w.ids j ≡ some a
    still j a q = elim (Bool-cases (j == i)) [
      | inl y ↦ absurd (ground (arith, q, y))
      | inr y ↦ ground (arith, q, y)
    ]

    differs : (j a : ℕ) → hold i none w.ids j ≡ some a → j ≢ i
    differs j a q y = ground (arith, q, y)

hold_same : (i : ℕ) (a : Option ℕ) (f : ℕ → Option ℕ) → f i ≡ a → hold i a f ≡ f
hold_same i a f h = λ k j. same j k
  where
    same : (j : ℕ) → hold i a f j ≡ f j
    same j = elim (Bool-cases (j == i)) [
      | inl y ↦ rw (y) (sym h ∙ ap f (sym ((==_iff j i).0 y)))
      | inr y ↦ rw (y) refl
    ]

next_track-le : (s : Tracks) (xs : List ℕ) → (next_track s xs).1.next_id ≤ s.next_id + 1
next_track-le s [] = omega arith
next_track-le s (x ∷ xs) = omega arith

release-next_id : (id : ℕ) (s : Tracks) → (release id s).next_id ≡ s.next_id
unfolding release
release-next_id id s = elim (Bool-cases (id == 0)) [ inl y ↦ rw (y) refl | inr y ↦ rw (y) refl ]

-- A future takes its id, or a new one, and becomes the current track.
abbrev entered : ℕ → World → World
entered i w =
    let (id, s) = held_id (w.ids i) w.tracks in
    record { tracks = record s { current = id }; ids = hold i (some id) w.ids }

-- The poll ends: the track before is the current one again, and a future that is done gives its id back.
abbrev left : ℕ → ℕ → ℕ → Bool → World → World
left i id before is_done w =
    let s : Tracks = record w.tracks { current = before } in
    if is_done
    then record { tracks = release id s; ids = hold i none w.ids }
    else record { tracks = s; ids = hold i (some id) w.ids }

poll_of_lem :
    (i : ℕ) (within : Polls) (is_done : Bool) (later : Polls) (w : World)
    → let (id, s) = held_id (w.ids i) w.tracks in
      all_polled (poll_of i within is_done later) w
      ≡ all_polled later (left i id s.current is_done (all_polled within (entered i w)))
unfolding all_polled poll_tracked
poll_of_lem i within true later w = refl
poll_of_lem i within false later w = refl

current-IsShared :
    (c : ℕ) (s : Tracks) (ids : ℕ → Option ℕ)
    → IsShared (record { tracks = s; ids = ids })
    → IsShared (record { tracks = record s { current = c }; ids = ids })
current-IsShared c s ids g = record {
  started = g.started;
  distinct = g.distinct;
  given = g.given;
  held = g.held;
  away = g.away;
  apart = g.apart;
}

entered-IsShared :
    (i : ℕ) (w : World)
    → IsShared w
    → w.tracks.next_id < 2 ^ 64 - 1
    → IsShared (entered i w) × ((entered i w).tracks.next_id ≤ w.tracks.next_id + 1)
unfolding acquire
entered-IsShared i w g h =
    let xs = w.tracks.available_ids in
    elim (Option-cases (w.ids i)) [
      | inl n ↦
          let (id, s) = next_track w.tracks xs in
          rw (n) (
            current-IsShared id s (hold i (some id) w.ids) (next_track-IsShared i w xs refl g h),
            next_track-le w.tracks xs,
          )
      | inr (id, n) ↦ rw (n) (
        subst (λ f. IsShared (record { tracks = record w.tracks { current = id }; ids = f }))
            (sym (hold_same i (some id) w.ids n)) (current-IsShared id w.tracks w.ids g),
        omega arith,
      )
    ]

left-IsShared :
    (i id before : ℕ) (is_done : Bool) (w : World)
    → IsShared w
    → w.ids i ≡ some id
    → IsShared (left i id before is_done w)
      × ((left i id before is_done w).tracks.next_id ≤ w.tracks.next_id)
left-IsShared i id before true w g n =
    let s : Tracks = record w.tracks { current = before } in
    (
      released-IsShared i id (record { tracks = s; ids = w.ids })
          (current-IsShared before w.tracks w.ids g) n,
      omega (arith, release-next_id id s),
    )
left-IsShared i id before false w g n = (
  subst (λ f. IsShared (record { tracks = record w.tracks { current = before }; ids = f }))
      (sym (hold_same i (some id) w.ids n)) (current-IsShared before w.tracks w.ids g),
  omega arith,
)

no_more_lem : (w : World) → all_polled no_more w ≡ w
unfolding all_polled
no_more_lem w = refl

hold_other : (i j : ℕ) (a : Option ℕ) (f : ℕ → Option ℕ) → i ≢ j → hold j a f i ≡ f i
hold_other i j a f n = elim (Bool-cases (i == j)) [
  | inl y ↦ absurd (n ((==_iff i j).0 y))
  | inr y ↦ rw y refl
]

left_other :
    (i j id before : ℕ) (is_done : Bool) (w : World)
    → i ≢ j
    → (left j id before is_done w).ids i ≡ w.ids i
left_other i j id before true w n = hold_other i j none w.ids n
left_other i j id before false w n = hold_other i j (some id) w.ids n

-- Polls of other futures leave what a future holds.
all_polled-Without :
    (i : ℕ) (e : Polls) (w : World) → Without i e → (all_polled e w).ids i ≡ w.ids i
unfolding Without
all_polled-Without i no_more w o = ap (λ x. x.ids i) (no_more_lem w)
all_polled-Without i (poll_of j within is_done later) w (n, o, p) =
    let (id, s) = held_id (w.ids j) w.tracks in
    let v = all_polled within (entered j w) in
    ap (λ x. x.ids i) (poll_of_lem j within is_done later w)
    ∙ all_polled-Without i later (left j id s.current is_done v) p
    ∙ left_other i j id s.current is_done v n
    ∙ all_polled-Without i within (entered j w) o
    ∙ hold_other i j (some id) w.ids n

held_by : (i id : ℕ) (f : ℕ → Option ℕ) → hold i (some id) f i ≡ some id
held_by i id f = rw (==_refl i) refl

all_polled-IsShared :
    (e : Polls) (w : World)
    → IsNested e
    → IsShared w
    → w.tracks.next_id + count e < 2 ^ 64
    → IsShared (all_polled e w) × ((all_polled e w).tracks.next_id ≤ w.tracks.next_id + count e)
unfolding IsNested count
all_polled-IsShared no_more w o g h =
    subst (λ x. IsShared x × (x.tracks.next_id ≤ w.tracks.next_id + 0)) (sym (no_more_lem w))
      (g, omega arith)
all_polled-IsShared (poll_of i within is_done later) w (o, p, q) g h =
    let (id, s) = held_id (w.ids i) w.tracks in
    let n = w.tracks.next_id + suc (count within + count later) in
    let (shared, more) = entered-IsShared i w g (omega (arith, h)) in
    let v = all_polled within (entered i w) in
    let (shared', more') =
      all_polled-IsShared within (entered i w) p shared (omega (arith, h, more)) in
    let kept = all_polled-Without i within (entered i w) o ∙ held_by i id w.ids in
    let (shared'', more'') = left-IsShared i id s.current is_done v shared' kept in
    let (last, bound) =
      all_polled-IsShared later (left i id s.current is_done v) q shared''
        (omega (arith, h, more, more', more'')) in
    subst (λ x. IsShared x × (x.tracks.next_id ≤ n)) (sym (poll_of_lem i within is_done later w))
      (last, omega (arith, more, more', more'', bound))

-- In every run of less than 2 ^ 64 - 1 polls from the start, nested as inner futures poll further tracked
-- ones but no future within itself, two futures hold one id only if they are the same, no future holds
-- one that is available, and none holds 0, the main track's.
pub all_polled-apart :
    (e : Polls) (i a : ℕ)
    → IsNested e
    → count e < 2 ^ 64 - 1
    → let w = all_polled e (record { tracks = no_tracks; ids = λ i. none }) in
      w.ids i ≡ some a
      → (0 < a) × Avoids a w.tracks.available_ids × ((j : ℕ) → w.ids j ≡ some a → j ≡ i)
unfolding Given Distinct
all_polled-apart e i a o h k =
    let (g, l) =
      all_polled-IsShared e (record { tracks = no_tracks; ids = λ i. none }) o
        (record {
          started = omega arith;
          distinct = tt;
          given = tt;
          held = λ i a q. absurd (ground (arith, q));
          away = λ i a q. absurd (ground (arith, q));
          apart = λ i j a q r. absurd (ground (arith, q));
        })
        (omega (arith, h)) in
    ((g.held i a k).0, g.away i a k, λ j q. g.apart j i a q k)
