-- ===== src/Collective/Progress.antt =====
-- No schedule leads the ranks into a deadlock.
use pluvio.Base.{
  ℕ, suc, ◌<◌, ◌≤◌, ◌≡◌, ◌⊎◌, inl, inr, refl, sym, ap, ap₂, ◌∙◌, true, false, none, some, List, [],
  ◌∷◌, ◌++◌, ◌==◌, ==_iff, Bool-cases, arith,
}
use pluvio.Collective.Network.{
  Protocol, Letter, Net, IsMatched, put, addressed, pick, discard, turn, run, start,
}
use pluvio.Collective.Turns.{
  Turn, idle, silent, sends, passes, takes, turn-Turn, started, posted, ended, received,
}
use pluvio.Collective.Agreement.{put_self, put_other}

module _ {X M K : Type 0} (p : Protocol X M K) (fit : IsMatched p) where
  -- The rank has sent the message of the round.
  abbrev Sent : ℕ → ℕ → Net X M K → Type 0
  Sent k s t = (k < t.pc s) ⊎ ((k ≡ t.pc s) × (t.sent s ≡ true))

  -- A message that was sent, and that its receiver has not taken, is in the mail; nobody has finished
  -- more rounds than there are.
  pub record IsComplete (t : Net X M K) : Type 0 where
    pub arrives :
        (d k s : ℕ)
        → k < p.rounds
        → s < p.size
        → p.dest k s ≡ some d
        → Sent k s t
        → t.pc d ≤ k
        → (m : M) × (pick p d (p.key k s) t.mail ≡ some m)
    pub bounded : (r : ℕ) → t.pc r ≤ p.rounds

  pick-append :
      (d : ℕ) (q : K) (ls : List (Letter M K)) (l : Letter M K) (m : M)
      → pick p d q ls ≡ some m
      → pick p d q (ls ++ l ∷ []) ≡ some m
  pick-append d q [] l m h = ground (arith, h)
  pick-append d q (l' ∷ ls) l m h = elim (Bool-cases (addressed p d q l')) [
    | inl e ↦ ground (arith, e, h)
    | inr e ↦ rw (e) (pick-append d q ls l m (ground (arith, e, h)))
  ]

  pick-last :
      (d : ℕ) (q : K) (ls : List (Letter M K)) (l : Letter M K)
      → addressed p d q l ≡ true
      → (m : M) × (pick p d q (ls ++ l ∷ []) ≡ some m)
  pick-last d q [] l h = (l.content, rw (h) refl)
  pick-last d q (l' ∷ ls) l h = elim (Bool-cases (addressed p d q l')) [
    | inl e ↦ (l'.content, rw (e) refl)
    | inr e ↦ let (m, f) = pick-last d q ls l h in (m, rw (e) f)
  ]

  -- Taking one letter leaves what another call of `pick` finds, if no letter answers both.
  pick-discard :
      (d r : ℕ) (q q' : K) (ls : List (Letter M K))
      → ((l : Letter M K) → addressed p d q l ≡ true → addressed p r q' l ≡ false)
      → pick p d q (discard p r q' ls) ≡ pick p d q ls
  pick-discard d r q q' [] h = refl
  pick-discard d r q q' (l ∷ ls) h = elim (Bool-cases (addressed p r q' l)) [
    | inl e ↦ ground (arith, e, h l)
    | inr e ↦ rw (e) (ground (arith, pick-discard d r q q' ls h))
  ]

  started-IsComplete :
      (r : ℕ) (t : Net X M K)
      → IsComplete t
      → t.pc r < p.rounds
      → p.dest (t.pc r) r ≡ none
      → IsComplete (started p r t)
  started-IsComplete r t g b e = record {
    arrives = λ d k s ck cs f h l. g.arrives d k s ck cs f (earlier d k s f h) l;
    bounded = g.bounded;
  }
    where
      earlier : (d k s : ℕ) → p.dest k s ≡ some d → Sent k s (started p r t) → Sent k s t
      earlier d k s f (inl h) = inl h
      earlier d k s f (inr (q, h)) = elim (Bool-cases (s == r)) [
        | inl y ↦
            let sr = (==_iff s r).0 y in
            let both : none ≡ some d = sym e ∙ ap₂ p.dest (ap t.pc (sym sr) ∙ sym q) (sym sr) ∙ f in
            absurd (ground (arith, both))
        | inr n ↦ inr (q, sym (put_other r s true t.sent (ground (arith, n))) ∙ h)
      ]

  posted-IsComplete :
      (r d : ℕ) (t : Net X M K)
      → IsComplete t
      → r < p.size
      → t.pc r < p.rounds
      → p.dest (t.pc r) r ≡ some d
      → IsComplete (posted p r d t)
  posted-IsComplete r d t g a b e = record {
    arrives = λ d' k s ck cs f h l. arrives d' k s ck cs f (earlier d' k s f h) l;
    bounded = g.bounded;
  }
    where
      letter : Letter M K
      letter = record {
        to = d;
        label = p.key (t.pc r) r;
        content = p.payload (t.pc r) r (t.held r);
      }

      earlier :
          (d' k s : ℕ)
          → p.dest k s ≡ some d'
          → Sent k s (posted p r d t)
          → Sent k s t ⊎ ((k ≡ t.pc r) × (s ≡ r))
      earlier d' k s f (inl h) = inl (inl h)
      earlier d' k s f (inr (q, h)) = elim (Bool-cases (s == r)) [
        | inl y ↦ inr (ground (arith, y, q))
        | inr n ↦ inl (inr (q, sym (put_other r s true t.sent (ground (arith, n))) ∙ h))
      ]

      arrives :
          (d' k s : ℕ)
          → k < p.rounds
          → s < p.size
          → p.dest k s ≡ some d'
          → Sent k s t ⊎ ((k ≡ t.pc r) × (s ≡ r))
          → t.pc d' ≤ k
          → (m : M) × (pick p d' (p.key k s) (t.mail ++ letter ∷ []) ≡ some m)
      arrives d' k s ck cs f (inl h) l =
          let (m, q) = g.arrives d' k s ck cs f h l in
          (m, pick-append d' (p.key k s) t.mail letter m q)
      arrives d' k s ck cs f (inr (x, y)) l = pick-last d' (p.key k s) t.mail letter (
          let both : some d ≡ some d' = sym e ∙ sym (ap₂ p.dest x y) ∙ f in
          rw (x, y) (ground (arith, both, fit.itself (t.pc r) r)))

  -- What was sent when a rank has ended its round was sent before.
  Sent-ended :
      (r k s : ℕ) (t u : Net X M K)
      → t.sent r ≡ true
      → u.pc s ≡ put r (suc (t.pc r)) t.pc s
      → u.sent s ≡ put r false t.sent s
      → Sent k s u
      → Sent k s t
  Sent-ended r k s t u c ep es h = elim (Bool-cases (s == r)) [
    | inr n ↦
        unchanged (ep ∙ put_other r s _ t.pc (ground (arith, n)))
          (es ∙ put_other r s false t.sent (ground (arith, n))) h
    | inl y ↦
        let sr = (==_iff s r).0 y in
        ended_now (ap t.pc sr) (ap t.sent sr ∙ c)
          (ep ∙ ap (put r (suc (t.pc r)) t.pc) sr ∙ put_self r (suc (t.pc r)) t.pc)
          (es ∙ ap (put r false t.sent) sr ∙ put_self r false t.sent) h
  ]
    where
      unchanged : u.pc s ≡ t.pc s → u.sent s ≡ t.sent s → Sent k s u → Sent k s t
      unchanged a b (inl h) = inl (omega (arith, a))
      unchanged a b (inr (q, h)) = inr (q ∙ a, sym b ∙ h)

      ended_now :
          t.pc s ≡ t.pc r
          → t.sent s ≡ true
          → u.pc s ≡ suc (t.pc r)
          → u.sent s ≡ false
          → Sent k s u
          → Sent k s t
      ended_now a b c d (inl h) = elim (Bool-cases (k == t.pc s)) [
        | inl e ↦ inr ((==_iff k (t.pc s)).0 e, b)
        | inr e ↦ inl (ground (arith, e, a, c, h))
      ]
      ended_now a b c d (inr (q, h)) = absurd (ground (arith, d, h))

  pc-le : (r j : ℕ) (t : Net X M K) → t.pc j ≤ put r (suc (t.pc r)) t.pc j
  pc-le r j t = ground arith

  pc-bounded :
      (r j : ℕ) (t : Net X M K)
      → IsComplete t
      → t.pc r < p.rounds
      → put r (suc (t.pc r)) t.pc j ≤ p.rounds
  pc-bounded r j t g b = ground (arith, g.bounded j)

  ended-IsComplete :
      (r : ℕ) (t : Net X M K)
      → IsComplete t
      → t.pc r < p.rounds
      → t.sent r ≡ true
      → IsComplete (ended p r t)
  ended-IsComplete r t g b c = record {
    arrives = λ d k s ck cs f h l.
        g.arrives d k s ck cs f (Sent-ended r k s t (ended p r t) c refl refl h)
          (omega (arith, l, pc-le r d t));
    bounded = λ j. pc-bounded r j t g b;
  }

  -- No letter for a rank whose round is to come answers what another rank, or the same one in this
  -- round, takes.
  not_both :
      (r s d k s' : ℕ) (t : Net X M K)
      → r < p.size
      → t.pc r < p.rounds
      → s < p.size
      → k < p.rounds
      → s' < p.size
      → p.dest (t.pc r) s ≡ some r
      → p.dest k s' ≡ some d
      → put r (suc (t.pc r)) t.pc d ≤ k
      → (l : Letter M K) → addressed p d (p.key k s') l ≡ true
      → addressed p r (p.key (t.pc r) s) l ≡ false
  not_both r s d k s' t a b cs ck cs' to to' le l h =
      elim (Bool-cases (addressed p r (p.key (t.pc r) s) l)) [
        | inr n ↦ n
        | inl y ↦
            let dr : d ≡ r = ground (arith, y, h) in
            let (e, _) =
              fit.apart l.label (t.pc r) k s s' r b ck cs cs' to (to' ∙ ap some dr)
                (ground (arith, y)) (ground (arith, h)) in
            absurd (
              omega
                (arith, e, le, ap (put r (suc (t.pc r)) t.pc) dr, put_self r (suc (t.pc r)) t.pc))
      ]

  received-IsComplete :
      (r s : ℕ) (m : M) (t : Net X M K)
      → IsComplete t
      → r < p.size
      → t.pc r < p.rounds
      → t.sent r ≡ true
      → s < p.size
      → p.dest (t.pc r) s ≡ some r
      → IsComplete (received p r s m t)
  received-IsComplete r s m t g a b c cs to = record {
    arrives = λ d k s' ck cs' f h l.
        (let (m', q) =
            g.arrives d k s' ck cs' f (Sent-ended r k s' t (received p r s m t) c refl refl h)
              (omega (arith, l, pc-le r d t)) in
          (
            m',
            pick-discard d r (p.key k s') (p.key (t.pc r) s) t.mail
                  (not_both r s d k s' t a b cs ck cs' to f l)
                ∙ q,
          ));
    bounded = λ j. pc-bounded r j t g b;
  }

  pub Turn-IsComplete : (r : ℕ) (t u : Net X M K) → Turn p r t u → IsComplete t → IsComplete u
  Turn-IsComplete r t u (idle e) g = rw (e) g
  Turn-IsComplete r t u (silent a b c e) g = rw (e) (started-IsComplete r t g b c)
  Turn-IsComplete r t u (sends d a b c e) g = rw (e) (posted-IsComplete r d t g a b c)
  Turn-IsComplete r t u (passes a b c n e) g = rw (e) (ended-IsComplete r t g b c)
  Turn-IsComplete r t u (takes s m a b c n f e) g =
      (let (cs, to) = fit.waited (t.pc r) r s b a n in
        rw (e) (received-IsComplete r s m t g a b c cs to))

  pub run-IsComplete : (rs : List ℕ) (t : Net X M K) → IsComplete t → IsComplete (run p rs t)
  unfolding run
  run-IsComplete [] t g = g
  run-IsComplete (r ∷ rs) t g =
      run-IsComplete rs (turn p r t) (Turn-IsComplete r t (turn p r t) (turn-Turn p r t) g)

  pub start-IsComplete : (init : ℕ → X) → IsComplete (start p init)
  unfolding start
  start-IsComplete init = record {
    arrives = λ d k s ck cs f h l. nothing k h;
    bounded = λ r. omega arith;
  }
    where
      nothing : {A : Type 0} → (k : ℕ) → ((k < 0) ⊎ ((k ≡ 0) × (false ≡ true))) → A
      nothing k (inl h) = absurd (omega arith)
      nothing k (inr (q, h)) = absurd (ground (arith, h))
