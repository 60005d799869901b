-- ===== src/Uring/Idle.antt =====
-- `wait_cqueue` of the io_uring reactor.
use pluvio.Base.{
  ℕ, ◌+◌, ◌≡◌, sym, ◌∙◌, inl, inr, Bool, true, false, not, List, [], ◌∷◌, length, leb, Bool-cases,
  arith, ap, done, Option-cases,
}
use pluvio.Uring.{Ring, IoUringReactor, is_empty, is_some, wait_cqueue}
use pluvio.Uring.Balance.{Laws, IsBalanced}

emptiness :
    (n m : ℕ) (us : List ℕ)
    → n + length us ≡ m
    → leb m n ≡ elim us as (λ y. Bool) [ [] ↦ true | u ∷ us ↦ false ]
emptiness n m [] e = ground (arith, e)
emptiness n m (u ∷ us) e = ground (arith, e)

-- Where the ring's `submit_and_wait` does not fail, `wait_cqueue` says whether operations are under way, and
-- nothing that is under way is lost by it.
pub wait_cqueue_lem :
    {W : Type 0} (r : Ring W) (under_way : W → List ℕ)
    → Laws r under_way
    → (s : IoUringReactor W) → is_some (r.submit_and_wait 0 s.ring) ≡ true
    → IsBalanced under_way s
    → (t : IoUringReactor W) × (wait_cqueue r s ≡ done (t, not (is_empty s)))
      × IsBalanced under_way t
unfolding wait_cqueue
wait_cqueue_lem r under_way laws s h b =
    let e = emptiness s.completed_count s.user_data_counter s.completions b.counted in
    elim (Option-cases (r.submit_and_wait 0 s.ring)) [
      | inl z ↦ absurd (ground (arith, z, h))
      | inr (v, z) ↦ elim (Bool-cases (leb s.user_data_counter s.completed_count)) [
        | inl y ↦ rw (y) (s, ap (λ x. done (s, x)) (ap not (sym y ∙ e)), b)
        | inr y ↦
            rw (y, z)
              (
                record s { ring = v },
                ap (λ x. done (record s { ring = v }, x)) (ap not (sym y ∙ e)),
                record {
                  tracked = b.tracked ∙ sym (laws.wait_keeps 0 s.ring v z);
                  counted = b.counted;
                  below = b.below;
                  distinct = b.distinct;
                  word = b.word;
                },
              )
      ]
    ]
