-- ===== src/Collective/Bootstrap/Exchange.antt =====
-- The exchange gives every rank the addresses of all.
use pluvio.Base.{
  ℕ, zero, suc, ◌^◌, ◌≤◌, ◌<◌, ◌≡◌, ◌≢◌, refl, sym, ap, subst, ◌∙◌, inl, inr, false, none, some, [],
  ◌++◌, length, ltb, lt→ltb, ◌==◌, ==_iff, ==_refl, if◌then◌else◌, append-nil, Bool-cases, arith,
}
use pluvio.Collective.Network.{put}
use pluvio.Collective.Agreement.{put_other}
use pluvio.Collective.Bootstrap.{
  Outcome, returned, panicked, size_mismatch, Bytes, and_then, read_u32_len_prefixed, hello, Known,
  admit, accept, listed, catalog, reply, serve, receive, write_u32_len_prefixed, write_all,
  read_addresses,
}
use pluvio.Collective.Bootstrap.Streams.{
  read_u32-written, read_u32_len_prefixed-write, read_addresses-write, length-listed, listed-ext,
  listed-AllShort,
}

-- A rank that is announced is noted.
admit-hello :
    (size i r : ℕ) (addr : Bytes) (s : Known)
    → r < size
    → r < 2 ^ 32
    → length addr < 2 ^ 32
    → admit size i (hello r addr) s
      ≡ returned (record { addresses = put r addr s.addresses; conns = put r (some i) s.conns })
unfolding admit hello
admit-hello size i r addr s h w short =
    ap
      (λ o. and_then o (λ (p : ℕ × Bytes).
        and_then (read_u32_len_prefixed p.1) (λ (q : Bytes × Bytes). noted p.0 q.0)))
      (read_u32-written r (write_u32_len_prefixed addr) w)
    ∙ ap (λ x. and_then (read_u32_len_prefixed x) (λ (q : Bytes × Bytes). noted r q.0))
        (sym (append-nil (write_u32_len_prefixed addr)))
    ∙ ap (λ o. and_then o (λ (q : Bytes × Bytes). noted r q.0))
        (read_u32_len_prefixed-write addr [] short)
    ∙ rw (lt→ltb r size h) refl
  where
    noted : ℕ → Bytes → Outcome Known
    noted k a =
        if ltb k size
        then returned (record { addresses = put k a s.addresses; conns = put k (some i) s.conns })
        else panicked

-- What comes through the connections.
abbrev pub greetings : (ℕ → Bytes) → (ℕ → ℕ) → ℕ → Bytes
greetings addr order i = hello (order i) (addr (order i))

-- `order i` is the rank whose connection is accepted as number `i`, of `others` ranks beside rank 0.
module _ (others : ℕ) (addr : ℕ → Bytes) (order : ℕ → ℕ) (word : suc others < 2 ^ 32)
    (short : (r : ℕ) → r < suc others → length (addr r) < 2 ^ 32)
    (ranks : (i : ℕ) → i < others → (0 < order i) × (order i < suc others))
    (met : (r : ℕ) → 0 < r → r < suc others → (i : ℕ) × (i < others) × (order i ≡ r))
    (once : (i j : ℕ) → i < others → j < others → order i ≡ order j → i ≡ j) where
  -- After `k` connections.
  record Meets (k : ℕ) (s : Known) : Type 0 where
    own : s.addresses 0 ≡ addr 0
    theirs : (j : ℕ) → j < k → s.addresses (order j) ≡ addr (order j)
    linked :
        (j : ℕ) → j < k → (i : ℕ) × (s.conns (order j) ≡ some i) × (i < k) × (order i ≡ order j)

  abbrev first : Known
  first = record { addresses = put 0 (addr 0) (λ r. []); conns = λ r. none }

  accepts :
      (k : ℕ)
      → k ≤ others
      → (s : Known) × (accept (suc others) (greetings addr order) k first ≡ returned s) × Meets k s
  unfolding accept
  accepts zero h = (
    first,
    refl,
    record {
      own = refl;
      theirs = λ j a. absurd (omega (arith, a));
      linked = λ j a. absurd (omega (arith, a));
    },
  )
  accepts (suc k) h =
      let (s, e, g) = accepts k (omega (arith, h)) in
      let r = order k in
      let (pos, fits) = ranks k (omega (arith, h)) in
      (
        record { addresses = put r (addr r) s.addresses; conns = put r (some k) s.conns },
        ap (λ o. and_then o (admit (suc others) k (greetings addr order k))) e
            ∙ admit-hello (suc others) k r (addr r) s fits (omega (arith, fits, word))
                (short r fits),
        record {
          own = put_other r 0 (addr r) s.addresses (λ z. omega (arith, z, pos)) ∙ g.own;
          theirs = λ j a. elim (Bool-cases (order j == r)) [
            | inl y ↦ rw (y) (ap addr (sym ((==_iff (order j) r).0 y)))
            | inr y ↦ rw (y) (g.theirs j (still j y a))
          ];
          linked = λ j a. elim (Bool-cases (order j == r)) [
            | inl y ↦ (k, rw (y) refl, omega arith, sym ((==_iff (order j) r).0 y))
            | inr y ↦
                let (i, c, l, q) = g.linked j (still j y a) in (i, rw (y) c, omega (arith, l), q)
          ];
        },
      )
    where
      still : (j : ℕ) → (order j == order k) ≡ false → j < suc k → j < k
      still j y a = elim (Bool-cases (j == k)) [
        | inl z ↦ absurd (ground (arith, y, ap order ((==_iff j k).0 z)))
        | inr z ↦ ground (arith, z, a)
      ]

  -- After the replies to the first `k` ranks.
  module _ (s : Known) (g : Meets others s) where
    abbrev book : Bytes
    book = catalog (suc others) s.addresses

    record Replied (k : ℕ) (out : ℕ → Bytes) : Type 0 where
      to : (r i : ℕ) → 0 < r → r ≤ k → s.conns r ≡ some i → out i ≡ book
      rest : (i : ℕ) → k < order i → out i ≡ []

    conn : (r : ℕ) → 0 < r → r < suc others → (i : ℕ) × (s.conns r ≡ some i) × (order i ≡ r)
    conn r a b =
        let (j, l, e) = met r a b in
        let (i, c, _, q) = g.linked j l in (i, ap s.conns (sym e) ∙ c, q ∙ e)

    earlier :
        (r j i k : ℕ) → r ≤ suc k → s.conns r ≡ some j → s.conns (suc k) ≡ some i → j ≢ i → r ≤ k
    earlier r j i k b d c n = elim (Bool-cases (r == suc k)) [
      | inl y ↦
          let both : some j ≡ some i = sym d ∙ ap s.conns ((==_iff r (suc k)).0 y) ∙ c in
          absurd (ground (arith, both, n))
      | inr y ↦ ground (arith, y, b)
    ]

    replies :
        (k : ℕ)
        → k ≤ others
        → (out : ℕ → Bytes) × (reply (suc others) s k (λ i. []) ≡ returned out) × Replied k out
    unfolding reply
    replies zero h =
        (λ i. [], refl, record { to = λ r i a b. absurd (omega (arith, a, b)); rest = λ i a. refl })
    replies (suc k) h =
        let (out, e, f) = replies k (omega (arith, h)) in
        let (i, c, q) = conn (suc k) (omega arith) (omega (arith, h)) in
        let new : out i ++ book ≡ book = ap (λ x. x ++ book) (f.rest i (omega (arith, q))) in
        (
          put i (out i ++ book) out,
          rw (e, c) refl,
          record {
            to = λ r j a b d. elim (Bool-cases (j == i)) [
              | inl y ↦ rw (y) new
              | inr y ↦ rw (y) (f.to r j a (earlier r j i k b d c (λ z. ground (arith, y, z))) d)
            ];
            rest = λ j a. elim (Bool-cases (j == i)) [
              | inl y ↦ absurd (omega (arith, a, q, ap order ((==_iff j i).0 y)))
              | inr y ↦ rw (y) (f.rest j (omega (arith, a)))
            ];
          },
        )

    told : (r : ℕ) → r < suc others → s.addresses r ≡ addr r
    told r a = elim (Bool-cases (r == 0)) [
      | inl y ↦ ap s.addresses ((==_iff r 0).0 y) ∙ g.own ∙ ap addr (sym ((==_iff r 0).0 y))
      | inr y ↦
          let (j, l, e) = met r (ground (arith, y)) a in
          ap s.addresses (sym e) ∙ g.theirs j l ∙ ap addr e
    ]

  -- What rank 0 writes is read as the addresses of all.
  receive-catalog :
      (f : ℕ → Bytes)
      → ((r : ℕ) → r < suc others → length (f r) < 2 ^ 32)
      → receive (suc others) (catalog (suc others) f) ≡ returned (listed (suc others) f)
  unfolding receive catalog
  receive-catalog f h =
      let n = suc others in
      let all = listed n f in
      ap
        (λ o.
          and_then o
            (λ (p : ℕ × Bytes). if p.0 == n then read_addresses p.0 p.1 else size_mismatch))
        (read_u32-written n (write_all all) word)
      ∙ rw (==_refl n) (
          ap (λ k. read_addresses k (write_all all)) (sym (length-listed n f))
          ∙ read_addresses-write all (listed-AllShort n f h))

  -- Where each of the ranks from 1 connects to rank 0 once, in any order, rank 0 does not panic: it has the
  -- addresses of all ranks in their order, and every other rank reads the same from its connection, if
  -- there are less than 2 ^ 32 ranks and each address has less than 2 ^ 32 bytes.
  pub exchange-agrees :
      (out : ℕ → Bytes) × (serve (suc others) (greetings addr order) (addr 0)
        ≡ returned (listed (suc others) addr, out))
      × ((i : ℕ) → i < others → receive (suc others) (out i) ≡ returned (listed (suc others) addr))
  unfolding serve
  exchange-agrees =
      let (s, e, g) = accepts others (omega arith) in
      let (out, f, h) = replies s g others (omega arith) in
      let same : listed (suc others) s.addresses ≡ listed (suc others) addr =
        listed-ext (suc others) s.addresses addr (told s g) in
      (
        out,
        rw (e, f) (ap (λ x. returned (x, out)) same),
        λ i a.
            let (pos, fits) = ranks i a in
            let (j, c, l, q) = g.linked i a in
            ap (receive (suc others))
              (ap out (once i j a l (sym q)) ∙ h.to (order i) j pos (omega (arith, fits)) c)
            ∙ receive-catalog s.addresses
                (λ r b. subst (λ x. length x < 2 ^ 32) (sym (told s g r b)) (short r b))
            ∙ ap returned same,
      )
