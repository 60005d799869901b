-- ===== src/Select/Races.antt =====
-- Which future `Select2` answers with, and when.
use pluvio.Base.{
  ℕ, zero, suc, min, ◌≡◌, refl, sym, ap, subst, leb, if_true, if_false, if◌then◌else◌, Poll, ready,
  pending, arith,
}
use pluvio.Select.{left, right, new, poll_second, poll_select}

-- A future answers `v` at its poll of that number, the first being 0, and is pending before.
unfoldable pub AnswersAt : {F A : Type 0} → (F → Poll A × F) → ℕ → F → A → Type 0
AnswersAt poll zero f v = (poll f).0 ≡ ready v
AnswersAt poll (suc n) f v = ((poll f).0 ≡ pending) × AnswersAt poll n (poll f).1 v

restated :
    {F A : Type 0} (poll : F → Poll A × F) (f : F) (i j : ℕ) (x y : A)
    → AnswersAt poll i f x
    → i ≡ j
    → x ≡ y
    → AnswersAt poll j f y
restated poll f i j x y h e q =
    subst (λ v. AnswersAt poll j f v) q (subst (λ n. AnswersAt poll n f x) e h)

module _ {F G A B : Type 0} (poll1 : F → Poll A × F) (poll2 : G → Poll B × G) where
  first_wins :
      (f : F) (g : G) (a : A)
      → (poll1 f).0 ≡ ready a
      → (poll_select poll1 poll2 (new f g)).0 ≡ ready (left a)
  unfolding poll_select
  first_wins f g a e = rw (e, poll_select) refl

  second_wins :
      (f : F) (g : G) (b : B)
      → (poll1 f).0 ≡ pending
      → (poll2 g).0 ≡ ready b
      → (poll_select poll1 poll2 (new f g)).0 ≡ ready (right b)
  unfolding poll_select poll_second
  second_wins f g b e h = rw (e, poll_select) (rw (h, poll_second) refl)

  both_wait :
      (f : F) (g : G)
      → (poll1 f).0 ≡ pending
      → (poll2 g).0 ≡ pending
      → poll_select poll1 poll2 (new f g) ≡ (pending, new (poll1 f).1 (poll2 g).1)
  unfolding poll_select poll_second
  both_wait f g e h = rw (e, poll_select) (rw (h, poll_second) refl)

  -- Where the first future answers at its poll `m` and the second at its poll `n`, `Select2` answers at the
  -- earlier of the two, with the first future's answer where they are the same.
  pub select-AnswersAt :
      (m n : ℕ) (f : F) (g : G) (a : A) (b : B)
      → AnswersAt poll1 m f a
      → AnswersAt poll2 n g b
      → AnswersAt
          (poll_select poll1 poll2)
          (min m n)
          (new f g)
          (if leb m n then left a else right b)
  unfolding AnswersAt
  select-AnswersAt zero n f g a b h k =
      restated (poll_select poll1 poll2) (new f g) 0 (min 0 n) (left a)
        (if leb 0 n then left a else right b) (first_wins f g a h) (omega arith)
        (sym (if_true (leb 0 n) (left a) (right b) (ground arith)))
  select-AnswersAt (suc m) zero f g a b h k =
      restated (poll_select poll1 poll2) (new f g) 0 (min (suc m) 0) (right b)
        (if leb (suc m) 0 then left a else right b) (second_wins f g b h.0 k) (omega arith)
        (sym (if_false (leb (suc m) 0) (left a) (right b) (ground arith)))
  select-AnswersAt (suc m) (suc n) f g a b h k =
      let e = both_wait f g h.0 k.0 in
      restated (poll_select poll1 poll2) (new f g) (suc (min m n)) (min (suc m) (suc n))
        (if leb m n then left a else right b) (if leb (suc m) (suc n) then left a else right b)
        (
          ap (λ y. y.0) e,
          subst
              (λ s.
                AnswersAt (poll_select poll1 poll2) (min m n) s
                  (if leb m n then left a else right b))
              (sym (ap (λ y. y.1) e)) (select-AnswersAt m n (poll1 f).1 (poll2 g).1 a b h.1 k.1),
        )
        (omega arith) (ap (λ c. if c then left a else right b) (ground arith))
