-- ===== src/Collective/Agreement.antt =====
-- Whatever the schedule, a rank that has finished a number of rounds holds what it would hold, were all
-- ranks in step.
use pluvio.Base.{
  ℕ, suc, ◌<◌, ◌≡◌, ◌≢◌, inl, inr, refl, sym, ap, ap₂, subst, ◌∙◌, true, none, some, List, [], ◌∷◌,
  ◌++◌, ◌==◌, ==_iff, ==_refl, Bool-cases, arith,
}
use pluvio.Collective.Network.{
  Protocol, Letter, Net, IsMatched, put, addressed, pick, discard, turn, run, start, sync,
}
use pluvio.Collective.Turns.{Turn, idle, silent, sends, passes, takes, turn-Turn, ended, received}

pub put_self {ℓ} : {A : Type ℓ} (i : ℕ) (a : A) (f : ℕ → A) → put i a f i ≡ a
put_self i a f = rw (==_refl i) refl

pub put_other {ℓ} : {A : Type ℓ} (i j : ℕ) (a : A) (f : ℕ → A) → j ≢ i → put i a f j ≡ f j
put_other i j a f h = ground (arith, h)

pub put_each {ℓ} :
    {A : Type ℓ} (P : ℕ → A → Type 0) (i : ℕ) (a : A) (f : ℕ → A)
    → P i a
    → ((j : ℕ) → P j (f j))
    → (j : ℕ) → P j (put i a f j)
put_each P i a f h k j = elim (Bool-cases (j == i)) [
  | inl e ↦ rw (e) (subst (λ i. P i a) (sym ((==_iff j i).0 e)) h)
  | inr e ↦ rw (e) (k j)
]

module _ {X M K : Type 0} (p : Protocol X M K) (fit : IsMatched p) (init : ℕ → X) where
  -- A message under the key of a round and a rank that sends to its receiver carries what that rank sends in
  -- that round.
  unfoldable pub IsHonest : Letter M K → Type 0
  IsHonest l =
      (k s : ℕ)
      → k < p.rounds
      → s < p.size
      → p.dest k s ≡ some l.to
      → p.same l.label (p.key k s) ≡ true
      → l.content ≡ p.payload k s (sync p init k s)

  unfoldable pub AllHonest : List (Letter M K) → Type 0
  AllHonest [] = Unit
  AllHonest (l ∷ ls) = IsHonest l × AllHonest ls

  pub record Agrees (t : Net X M K) : Type 0 where
    pub state : (r : ℕ) → t.held r ≡ sync p init (t.pc r) r
    pub honest : AllHonest t.mail

  AllHonest-append :
      (ls : List (Letter M K)) (l : Letter M K)
      → AllHonest ls
      → IsHonest l
      → AllHonest (ls ++ l ∷ [])
  unfolding AllHonest
  AllHonest-append [] l h k = (k, tt)
  AllHonest-append (l' ∷ ls) l (a, h) k = (a, AllHonest-append ls l h k)

  AllHonest-discard :
      (r : ℕ) (q : K) (ls : List (Letter M K)) → AllHonest ls → AllHonest (discard p r q ls)
  unfolding AllHonest
  AllHonest-discard r q [] h = tt
  AllHonest-discard r q (l ∷ ls) (a, h) = elim (Bool-cases (addressed p r q l)) [
    | inl e ↦ rw (e) h
    | inr e ↦ rw (e) (a, AllHonest-discard r q ls h)
  ]

  pick-honest :
      (r k s : ℕ) (ls : List (Letter M K)) (m : M)
      → AllHonest ls
      → k < p.rounds
      → s < p.size
      → p.dest k s ≡ some r
      → pick p r (p.key k s) ls ≡ some m
      → m ≡ p.payload k s (sync p init k s)
  unfolding AllHonest IsHonest
  pick-honest r k s [] m h a b f e = ground (arith, e)
  pick-honest r k s (l ∷ ls) m (here, h) a b f e = elim (Bool-cases (addressed p r (p.key k s) l)) [
    | inl y ↦
        ground (arith, e, y, here k s a b (f ∙ ap some {x = r} {y = l.to} (ground (arith, y))))
    | inr n ↦ pick-honest r k s ls m h a b f (ground (arith, e, n))
  ]

  -- The mail and the ranks stay right when the state of one rank is written.
  put-sync :
      (r : ℕ) (t u : Net X M K)
      → Agrees t
      → u.held r ≡ sync p init (u.pc r) r
      → ((j : ℕ) → j ≢ r → (u.held j ≡ t.held j) × (u.pc j ≡ t.pc j))
      → AllHonest u.mail
      → Agrees u
  put-sync r t u g here there h = record {
    state = λ j. elim (Bool-cases (j == r)) [
      | inl e ↦ rw ((==_iff j r).0 e) here
      | inr e ↦
          let (a, b) = there j (ground (arith, e)) in
          a ∙ g.state j ∙ ap (λ k. sync p init k j) (sym b)
    ];
    honest = h;
  }

  sync-none : (k r : ℕ) → p.source k r ≡ none → sync p init (suc k) r ≡ sync p init k r
  unfolding sync
  sync-none k r e = rw (e, sync) refl

  sync-some :
      (k r s : ℕ)
      → p.source k r ≡ some s
      → sync p init (suc k) r ≡ p.absorb k r (sync p init k r) (p.payload k s (sync p init k s))
  unfolding sync
  sync-some k r s e = rw (e, sync) refl

  posted-IsHonest :
      (r d : ℕ) (t : Net X M K)
      → Agrees t
      → r < p.size
      → t.pc r < p.rounds
      → p.dest (t.pc r) r ≡ some d
      → IsHonest
          (record { to = d; label = p.key (t.pc r) r; content = p.payload (t.pc r) r (t.held r) })
  unfolding IsHonest
  posted-IsHonest r d t g a b to k s ck cs f q =
      let (x, y) =
        fit.apart (p.key (t.pc r) r) (t.pc r) k r s d b ck a cs to f (fit.itself (t.pc r) r) q in
      ap (p.payload (t.pc r) r) (g.state r) ∙ ap₂ (λ k s. p.payload k s (sync p init k s)) x y

  ended-Agrees :
      (r : ℕ) (t : Net X M K) → Agrees t → p.source (t.pc r) r ≡ none → Agrees (ended p r t)
  ended-Agrees r t g n =
      put-sync r t (ended p r t) g
        (g.state r
          ∙ sym (sync-none (t.pc r) r n)
          ∙ ap (λ k. sync p init k r) (sym (put_self r (suc (t.pc r)) t.pc)))
        (λ j h. (refl, put_other r j (suc (t.pc r)) t.pc h)) g.honest

  received-Agrees :
      (r s : ℕ) (m : M) (t : Net X M K)
      → Agrees t
      → r < p.size
      → t.pc r < p.rounds
      → p.source (t.pc r) r ≡ some s
      → pick p r (p.key (t.pc r) s) t.mail ≡ some m
      → Agrees (received p r s m t)
  received-Agrees r s m t g a b n f =
      let told : m ≡ p.payload (t.pc r) s (sync p init (t.pc r) s) =
        (let (cs, to) = fit.waited (t.pc r) r s b a n in
          pick-honest r (t.pc r) s t.mail m g.honest b cs to f) in
      put-sync r t (received p r s m t) g
        (put_self r (p.absorb (t.pc r) r (t.held r) m) t.held
          ∙ ap₂ (p.absorb (t.pc r) r) (g.state r) told
          ∙ sym (sync-some (t.pc r) r s n)
          ∙ ap (λ k. sync p init k r) (sym (put_self r (suc (t.pc r)) t.pc)))
        (λ j h. (
          put_other r j (p.absorb (t.pc r) r (t.held r) m) t.held h,
          put_other r j (suc (t.pc r)) t.pc h,
        ))
        (AllHonest-discard r (p.key (t.pc r) s) t.mail g.honest)

  pub Turn-Agrees : (r : ℕ) (t u : Net X M K) → Turn p r t u → Agrees t → Agrees u
  Turn-Agrees r t u (idle e) g = rw (e) g
  Turn-Agrees r t u (silent a b c e) g = rw (e) (record { state = g.state; honest = g.honest })
  Turn-Agrees r t u (sends d a b c e) g = rw (e) (record {
    state = g.state;
    honest = AllHonest-append t.mail _ g.honest (posted-IsHonest r d t g a b c);
  })
  Turn-Agrees r t u (passes a b c n e) g = rw (e) (ended-Agrees r t g n)
  Turn-Agrees r t u (takes s m a b c n f e) g = rw (e) (received-Agrees r s m t g a b n f)

  pub run-Agrees : (rs : List ℕ) (t : Net X M K) → Agrees t → Agrees (run p rs t)
  unfolding run
  run-Agrees [] t g = g
  run-Agrees (r ∷ rs) t g =
      run-Agrees rs (turn p r t) (Turn-Agrees r t (turn p r t) (turn-Turn p r t) g)

  -- However the turns of the ranks and the deliveries of the messages are interleaved, a rank that has
  -- finished `k` rounds holds what it holds after `k` rounds in which all ranks are in step, if the
  -- ranks fit together.
  pub run-sync :
      (rs : List ℕ) (r : ℕ) → let t = run p rs (start p init) in t.held r ≡ sync p init (t.pc r) r
  unfolding start AllHonest sync
  run-sync rs r = (run-Agrees rs (start p init) (record { state = λ j. refl; honest = tt })).state r
