-- ===== src/Collective/Turns.antt =====
-- One turn of a rank on the network, case by case.
use pluvio.Base.{
  ℕ, suc, ◌<◌, ◌≡◌, inl, inr, refl, true, false, ◌&&◌, none, some, [], ◌∷◌, ◌++◌, ltb, Bool-cases,
  Option-cases, arith,
}
use pluvio.Collective.Network.{Protocol, Net, put, pick, discard, post, finish, turn}

module _ {X M K : Type 0} (p : Protocol X M K) where
  abbrev pub started : ℕ → Net X M K → Net X M K
  started r t = record t { sent = put r true t.sent }

  abbrev pub posted : ℕ → ℕ → Net X M K → Net X M K
  posted r d t = record t {
    sent = put r true t.sent;
    mail =
        t.mail
        ++ (record { to = d; label = p.key (t.pc r) r; content = p.payload (t.pc r) r (t.held r) })
          ∷ [];
  }

  abbrev pub ended : ℕ → Net X M K → Net X M K
  ended r t = record t { pc = put r (suc (t.pc r)) t.pc; sent = put r false t.sent }

  abbrev pub received : ℕ → ℕ → M → Net X M K → Net X M K
  received r s m t = record t {
    held = put r (p.absorb (t.pc r) r (t.held r) m) t.held;
    pc = put r (suc (t.pc r)) t.pc;
    sent = put r false t.sent;
    mail = discard p r (p.key (t.pc r) s) t.mail;
  }

  -- What a turn makes of a network.
  pub data Turn (r : ℕ) (t u : Net X M K) : Type 0 where
    idle : u ≡ t → Turn r t u
    silent :
        r < p.size → t.pc r < p.rounds → p.dest (t.pc r) r ≡ none → u ≡ started r t → Turn r t u
    sends :
        (d : ℕ)
        → r < p.size
        → t.pc r < p.rounds
        → p.dest (t.pc r) r ≡ some d
        → u ≡ posted r d t
        → Turn r t u
    passes :
        r < p.size
        → t.pc r < p.rounds
        → t.sent r ≡ true
        → p.source (t.pc r) r ≡ none
        → u ≡ ended r t
        → Turn r t u
    takes :
        (s : ℕ) (m : M)
        → r < p.size
        → t.pc r < p.rounds
        → t.sent r ≡ true
        → p.source (t.pc r) r ≡ some s
        → pick p r (p.key (t.pc r) s) t.mail ≡ some m
        → u ≡ received r s m t
        → Turn r t u

  post-Turn : (r : ℕ) (t : Net X M K) → r < p.size → t.pc r < p.rounds → Turn r t (post p r t)
  unfolding post
  post-Turn r t a b = elim (Option-cases (p.dest (t.pc r) r)) [
    | inl e ↦ silent a b e (rw (e, post) refl)
    | inr (d, e) ↦ sends d a b e (rw (e, post) refl)
  ]

  finish-Turn :
      (r : ℕ) (t : Net X M K)
      → r < p.size
      → t.pc r < p.rounds
      → t.sent r ≡ true
      → Turn r t (finish p r t)
  unfolding finish
  finish-Turn r t a b c = elim (Option-cases (p.source (t.pc r) r)) [
    | inl e ↦ passes a b c e (rw (e, finish) refl)
    | inr (s, e) ↦ elim (Option-cases (pick p r (p.key (t.pc r) s) t.mail)) [
      | inl n ↦ idle (rw (e, finish, n) refl)
      | inr (m, n) ↦ takes s m a b c e n (rw (e, finish, n) refl)
    ]
  ]

  pub turn-Turn : (r : ℕ) (t : Net X M K) → Turn r t (turn p r t)
  unfolding turn
  turn-Turn r t = elim (Bool-cases (ltb r p.size && ltb (t.pc r) p.rounds)) [
    | inr e ↦ idle (rw (e) refl)
    | inl e ↦
        let a : r < p.size = ground (arith, e) in
        let b : t.pc r < p.rounds = ground (arith, e) in
        elim (Bool-cases (t.sent r)) [
          | inl c ↦ rw (e, c) (finish-Turn r t a b c)
          | inr c ↦ rw (e, c) (post-Turn r t a b)
        ]
  ]
