-- ===== src/Mpi/Runs.antt =====
-- The life of a collective over MPI: its request stays with the reactor until it is done, and a poll of the
-- reactor after MPI is done with it is enough.
use pluvio.Base.{
  ℕ, zero, suc, ◌+◌, ◌<◌, ◌≡◌, refl, sym, ap, subst, ◌∙◌, inl, inr, Bool, true, Option, none, some,
  List, [], ◌∷◌, ◌++◌, length, length-append, get_elem?, Result, ok, ready, pending, Option-cases,
  arith,
}
use pluvio.Mpi.{PendingReq, MpiReactor, register, poll_mpi}
use pluvio.Mpi.Polling.{IsMirrored, Polls, poll_mpi-Polls}
use pluvio.Mpi.Calls.{MpiCall, MpiFuture, not_started, in_flight, Answer, poll_call}
use pluvio.Mpi.Slots.{Lives}
use pluvio.Mpi.Lifetimes.{tested-Lives, poll_from-Lives, poll_from-next_slot, poll_from-completes}

-- What happens beside the future: other collectives are registered, the reactor is polled, and calls of MPI
-- leave the library in another state.
pub data Event (L : Type 0) : Type 0 where
  registers : (req waker : ℕ) → Event L
  polls : Event L
  calls : L → Event L

get_elem?-append :
    {A : Type 0} (xs ys : List A) (i : ℕ) (a : A)
    → get_elem? xs i ≡ some a
    → get_elem? (xs ++ ys) i ≡ some a
get_elem?-append [] ys i a h = absurd (ground (arith, h))
get_elem?-append (x ∷ xs) ys zero a h = h
get_elem?-append (x ∷ xs) ys (suc i) a h = get_elem?-append xs ys i a h

get_elem?-end : {A : Type 0} (xs : List A) (a : A) → get_elem? (xs ++ a ∷ []) (length xs) ≡ some a
get_elem?-end [] a = refl
get_elem?-end (x ∷ xs) a = get_elem?-end xs a

-- A new request leaves the others.
register-Lives :
    {L : Type 0} (slot req q w : ℕ) (r : MpiReactor L)
    → slot < r.next_slot
    → Lives slot req 0 r
    → Lives slot req 0 (register q w r).0
unfolding register
register-Lives slot req q w r h (inl d) = inl (ground (arith, h, d))
register-Lives slot req q w r h (inr g) = inr (record {
  place = g.place;
  entry = g.entry;
  there =
      get_elem?-append r.pending ((record { req = q; waker = w; slot = r.next_slot }) ∷ []) g.place
        g.entry g.there;
  named = g.named;
  asked = g.asked;
  from = g.from;
})

module _ {L : Type 0} (mpi_test : L → ℕ → L × Bool) where
  unfoldable pub happens : Event L → MpiReactor L → Option (MpiReactor L)
  happens (registers req waker) r = some (register req waker r).0
  happens polls r = poll_mpi mpi_test r
  happens (calls mpi) r = some (record r { mpi = mpi })

  unfoldable pub all_happen : List (Event L) → MpiReactor L → Option (MpiReactor L)
  all_happen [] r = some r
  all_happen (e ∷ es) r = elim (happens e r) as (λ x. Option (MpiReactor L)) [
    | none ↦ none
    | some r' ↦ all_happen es r'
  ]

  record Follows (slot req : ℕ) (r : MpiReactor L) : Type 0 where
    mirrored : IsMirrored r
    lives : Lives slot req 0 r
    older : slot < r.next_slot

  happens-Follows :
      (slot req : ℕ) (e : Event L) (r out : MpiReactor L)
      → Follows slot req r
      → happens e r ≡ some out
      → Follows slot req out
  unfolding happens register IsMirrored poll_mpi Polls
  happens-Follows slot req (registers q w) r out g h =
      subst (Follows slot req) {x = (register q w r).0} {y = out} (ground (arith, h)) (record {
        mirrored = omega (
          arith,
          g.mirrored,
          length-append r.pending ((record { req = q; waker = w; slot = r.next_slot }) ∷ []),
        );
        lives = register-Lives slot req q w r g.older g.lives;
        older = omega (arith, g.older);
      })
  happens-Follows slot req polls r out g h =
      let ((out', e, m, _), _) = poll_mpi-Polls mpi_test r g.mirrored in
      let same : some out' ≡ some out = sym e ∙ h in
      record {
        mirrored = subst IsMirrored {x = out'} {y = out} (ground (arith, same)) m;
        lives = poll_from-Lives mpi_test slot req (length r.pending + 1) 0 r out g.lives h;
        older = omega (
          arith,
          g.older,
          poll_from-next_slot mpi_test slot req (length r.pending + 1) 0 r out h,
        );
      }
  happens-Follows slot req (calls mpi) r out g h =
      subst (Follows slot req) {x = record r { mpi = mpi }} {y = out} (ground (arith, h)) (record {
        mirrored = g.mirrored;
        lives = tested-Lives mpi_test slot req 0 r mpi g.lives;
        older = g.older;
      })

  all_stop :
      (e : Event L) (es : List (Event L)) (r : MpiReactor L)
      → happens e r ≡ none
      → all_happen (e ∷ es) r ≡ none
  unfolding all_happen
  all_stop e es r n = rw (n, all_happen) refl

  all_go :
      (e : Event L) (es : List (Event L)) (r r' : MpiReactor L)
      → happens e r ≡ some r'
      → all_happen (e ∷ es) r ≡ all_happen es r'
  unfolding all_happen
  all_go e es r r' n = rw (n, all_happen) refl

  all_happen-Follows :
      (slot req : ℕ) (es : List (Event L)) (r out : MpiReactor L)
      → Follows slot req r
      → all_happen es r ≡ some out
      → Follows slot req out
  unfolding all_happen
  all_happen-Follows slot req [] r out g h =
      subst (Follows slot req) {x = r} {y = out} (ground (arith, h)) g
  all_happen-Follows slot req (e ∷ es) r out g h = elim (Option-cases (happens e r)) [
    | inl n ↦ absurd (ground (arith, sym (all_stop e es r n) ∙ h))
    | inr (r', n) ↦
        all_happen-Follows slot req es r' out (happens-Follows slot req e r r' g n)
          (sym (all_go e es r r' n) ∙ h)
  ]

  -- The first poll of a future whose call the library takes.
  abbrev begun : MpiFuture → ℕ → MpiFuture
  begun f slot = record f { state = in_flight slot }

  abbrev with_entry : ℕ → ℕ → L → MpiReactor L → MpiReactor L
  with_entry req waker mpi r = (register req waker (record r { mpi = mpi })).0

  begins_pending :
      (nonblocking : L → MpiCall → L × Result ℕ ℕ) (waker req : ℕ) (mpi : L) (f : MpiFuture)
      (r : MpiReactor L)
      → f.state ≡ not_started
      → nonblocking r.mpi f.operation ≡ (mpi, ok req)
      → poll_call nonblocking waker f r ≡ (begun f r.next_slot, with_entry req waker mpi r, pending)
  unfolding poll_call register
  begins_pending nonblocking waker req mpi f r s n =
      rw (s, poll_call, ap (λ t. t.1) n, ap (λ t. t.0) n) refl

  last_poll :
      (nonblocking : L → MpiCall → L × Result ℕ ℕ) (waker slot : ℕ) (f : MpiFuture)
      (r : MpiReactor L)
      → r.is_done slot ≡ true
      → (poll_call nonblocking waker (begun f slot) r).2 ≡ ready (ok tt)
  unfolding poll_call
  last_poll nonblocking waker slot f r d = rw (d) refl

  with_entry-Follows :
      (req waker : ℕ) (mpi : L) (r : MpiReactor L)
      → IsMirrored r
      → Follows r.next_slot req (with_entry req waker mpi r)
  unfolding register IsMirrored
  with_entry-Follows req waker mpi r m =
      let entry : PendingReq = record { req = req; waker = waker; slot = r.next_slot } in
      record {
        mirrored = omega (arith, m, length-append r.pending (entry ∷ []));
        lives = inr (record {
          place = length r.pending;
          entry = entry;
          there = get_elem?-end r.pending entry;
          named = refl;
          asked = refl;
          from = omega arith;
        });
        older = omega arith;
      }

  -- A collective over MPI that the library takes is pending at its first poll. Whatever happens to the
  -- reactor after, once the library's state says that the request is complete, in a way that tests do not
  -- undo and that a test of the request finds, one poll of the reactor returns and the future's next poll
  -- is ready.
  pub poll_call-completes :
      (nonblocking : L → MpiCall → L × Result ℕ ℕ) (waker later req : ℕ) (mpi : L)
      (f f' : MpiFuture) (r r' out : MpiReactor L) (answer : Answer) (es : List (Event L))
      (Complete : L → Type 0)
      → IsMirrored r
      → f.state ≡ not_started
      → nonblocking r.mpi f.operation ≡ (mpi, ok req)
      → poll_call nonblocking waker f r ≡ (f', r', answer)
      → all_happen es r' ≡ some out
      → ((l : L) (q : ℕ) → Complete l → Complete (mpi_test l q).0)
      → ((l : L) → Complete l → (mpi_test l req).1 ≡ true)
      → Complete out.mpi
      → (answer ≡ pending)
        × ((done : MpiReactor L) × (poll_mpi mpi_test out ≡ some done)
            × ((poll_call nonblocking later f' done).2 ≡ ready (ok tt)))
  unfolding IsMirrored Polls poll_mpi
  poll_call-completes nonblocking waker later req mpi f f' r r' out answer es Complete m s n e h
        stays found c =
      let start = sym e ∙ begins_pending nonblocking waker req mpi f r s n in
      let g =
        all_happen-Follows r.next_slot req es r' out
          (subst (Follows r.next_slot req) (sym (ap (λ t. t.1) start))
            (with_entry-Follows req waker mpi r m))
          h in
      let ((done, d, _, _), _) = poll_mpi-Polls mpi_test out g.mirrored in
      (
        ap (λ t. t.2) start,
        (
          done,
          d,
          ap (λ f. (poll_call nonblocking later f done).2) (ap (λ t. t.0) start)
              ∙ last_poll nonblocking later r.next_slot f done (
                  poll_from-completes mpi_test r.next_slot req Complete stays found
                    (length out.pending + 1) 0 out done c g.lives d),
        ),
      )
