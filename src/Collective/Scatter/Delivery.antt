-- ===== src/Collective/Scatter/Delivery.antt =====
-- The scatter delivers every rank its part.
use pluvio.Base.{
  ℕ, zero, suc, ◌*◌, ◌≤◌, ◌<◌, ◌≡◌, ◌≢◌, refl, sym, ap, ap₂, subst, ◌∙◌, inl, inr, Option, none,
  some, List, length, leb, ◌==◌, ==_iff, ok, slice, write, write-whole, length-slice, Bool-cases,
  arith,
}
use pluvio.AmRouter.Header.{RecvKey, same_key_refl}
use pluvio.Collective.Keys.{round_key}
use pluvio.Collective.Network.{Protocol, IsMatched, sync, sync-rests, sync-takes, Ends, Ends-with}
use pluvio.Collective.Completion.{run-completes}
use pluvio.Collective.Ring.Chunks.{chunk_fits}
use pluvio.Collective.Scatter.{Parts, recipient, awaited, part, fan_out, of_one, of_root, scatter}

module _ (root : ℕ) where
  sent_by : (k r d : ℕ) → recipient root k r ≡ some d → (r ≡ root) × (k ≡ d)
  unfolding recipient
  sent_by k r d e = (ground (arith, e), ground (arith, e))

  waits_for : (k r s : ℕ) → awaited root k r ≡ some s → (s ≡ root) × (k ≡ r) × (r ≢ root)
  unfolding awaited
  waits_for k r s e = (ground (arith, e), ground (arith, e), λ q. ground (arith, e, q))

  sends_to : (d : ℕ) → d ≢ root → recipient root d root ≡ some d
  unfolding recipient
  sends_to d h = ground (arith, h)

-- A buffer that is overwritten.
abbrev filled : {T : Type 0} → List T → Parts T → Parts T
filled m b = record b { recv_buf = write 0 m b.recv_buf }

module _ {T : Type 0} (n root chunk : ℕ) where
  abbrev fan : Protocol (Parts T) (List T) RecvKey
  fan = fan_out n root chunk

  fan-IsMatched : root < n → IsMatched fan
  unfolding fan_out
  fan-IsMatched h = record {
    waited = λ k r s a b e.
        (let (x, y, z) = waits_for root k r s e in
          (omega (arith, x, h), ap₂ (recipient root) y x ∙ sends_to root r z));
    apart = λ l j k r s d _ _ _ _ e f _ _.
        (let (a, b) = sent_by root j r d e in
          let (c, g) = sent_by root k s d f in (b ∙ sym g, a ∙ sym c));
    itself = λ k r. same_key_refl (round_key 2 r r);
  }

  module _ (init : ℕ → Parts T) where
    -- The root takes nothing.
    root_stays : (k : ℕ) → sync fan init k root ≡ init root
    unfolding sync fan_out awaited
    root_stays zero = refl
    root_stays (suc k) = sync-rests fan init k root (ground arith) ∙ root_stays k

    not_yet : (k r : ℕ) → k ≤ r → sync fan init k r ≡ init r
    unfolding sync fan_out awaited
    not_yet zero r h = refl
    not_yet (suc k) r h =
        sync-rests fan init k r (ground (arith, h)) ∙ not_yet k r (omega (arith, h))

    -- Another rank takes its part in its round.
    taken :
        (k r : ℕ)
        → r ≢ root
        → r < k
        → sync fan init k r ≡ filled (part chunk r (init root)) (init r)
    unfolding fan_out awaited
    taken zero r h l = elim l [ ]
    taken (suc k) r h l = elim (Bool-cases (k == r)) [
      | inl y ↦
          let e = (==_iff k r).0 y in
          sync-takes fan init k r root (ground (arith, h, e))
          ∙ ap₂ (λ mine theirs. filled (part chunk k theirs) mine) (not_yet k r (omega (arith, e)))
              (root_stays k)
          ∙ ap (λ k. filled (part chunk k (init root)) (init r)) e
      | inr y ↦ sync-rests fan init k r (ground (arith, y)) ∙ taken k r h (ground (arith, y, l))
    ]

-- What the guards let pass.
one_ends :
    {T : Type 0} (b o : Parts T) (p : Protocol (Parts T) (List T) RecvKey) (x : Option (List T))
    → of_one b x ≢ ok (o, some p)
unfolding of_one
one_ends b o p none e = ground (arith, e)
one_ends b o p (some sb) e = elim (Bool-cases (length sb == length b.recv_buf)) [
  | inl y ↦ ground (arith, y, e)
  | inr y ↦ ground (arith, y, e)
]

root_begins :
    {T : Type 0} (n root : ℕ) (b o : Parts T) (p : Protocol (Parts T) (List T) RecvKey)
    (sb : List T)
    → of_root n root b (some sb) ≡ ok (o, some p)
    → (length sb ≡ length b.recv_buf * n)
      × (o ≡ record b { recv_buf = slice (root * length b.recv_buf) (length b.recv_buf) sb })
      × (p ≡ fan_out n root (length b.recv_buf))
unfolding of_root
root_begins n root b o p sb e = elim (Bool-cases (length sb == length b.recv_buf * n)) [
  | inl y ↦
      ((==_iff (length sb) (length b.recv_buf * n)).0 y, ground (arith, y, e), ground (arith, y, e))
  | inr y ↦ absurd (ground (arith, y, e))
]

root_passes :
    {T : Type 0} (n root : ℕ) (b o : Parts T) (p : Protocol (Parts T) (List T) RecvKey)
    (sb : List T)
    → b.send_buf ≡ some sb
    → scatter n root root b ≡ ok (o, some p)
    → of_root n root b (some sb) ≡ ok (o, some p)
unfolding scatter
root_passes n root b o p sb s e = elim (Bool-cases (leb n root)) [
  | inl y ↦ absurd (ground (arith, y, e))
  | inr y ↦ elim (Bool-cases (n == 1)) [
    | inl z ↦ absurd (one_ends b o p b.send_buf (ground (arith, y, z, e)))
    | inr z ↦ ap (of_root n root b) (sym s) ∙ ground (arith, y, z, e)
  ]
]

other_passes :
    {T : Type 0} (n rank root : ℕ) (b o : Parts T) (p : Protocol (Parts T) (List T) RecvKey)
    → rank ≢ root
    → scatter n rank root b ≡ ok (o, some p)
    → o ≡ b
unfolding scatter
other_passes n rank root b o p h e = elim (Bool-cases (leb n root)) [
  | inl y ↦ absurd (ground (arith, y, e))
  | inr y ↦ elim (Bool-cases (n == 1)) [
    | inl z ↦ absurd (one_ends b o p b.send_buf (ground (arith, y, z, e)))
    | inr z ↦ ground (arith, y, z, h, e)
  ]
]

-- Where every rank's call comes to its communication, and every rank has room for `chunk` elements, no
-- schedule leads to a deadlock: each can be carried on until all ranks have finished, and then every rank has
-- its part of the root's buffer.
pub scatter-delivers :
    {T : Type 0} (n root chunk : ℕ) (init opened : ℕ → Parts T)
    (p : Protocol (Parts T) (List T) RecvKey) (sb : List T) (rs : List ℕ)
    → root < n
    → (init root).send_buf ≡ some sb
    → ((r : ℕ) → r < n → length (init r).recv_buf ≡ chunk)
    → ((r : ℕ) → r < n → scatter n r root (init r) ≡ ok (opened r, some p))
    → Ends p opened rs (λ r. record (init r) { recv_buf = slice (r * chunk) chunk sb })
unfolding part fan_out
scatter-delivers {T} n root chunk init opened p sb rs h s sized e =
    let (len, at_root, q') =
      root_begins n root (init root) (opened root) p sb
        (root_passes n root (init root) (opened root) p sb s (e root h)) in
    let room = sized root h in
    let q : p ≡ fan_out n root chunk = q' ∙ ap (fan_out n root) room in
    let total : length sb ≡ chunk * n = len ∙ ap (λ c. c * n) room in
    let f = fan_out n root chunk in
    subst (λ p. Ends p opened rs (λ r. record (init r) { recv_buf = slice (r * chunk) chunk sb }))
      (sym q)
      (Ends-with f opened rs (sync f opened n)
        (λ r. record (init r) { recv_buf = slice (r * chunk) chunk sb })
        (run-completes f (fan-IsMatched n root chunk h) opened rs)
        (λ r a. elim (Bool-cases (r == root)) [
          | inl y ↦
              let z = (==_iff r root).0 y in
              ap (sync f opened n) z
              ∙ root_stays n root chunk opened n
              ∙ at_root
              ∙ ap (λ c. record (init root) { recv_buf = slice (root * c) c sb }) room
              ∙ ap (λ r. record (init r) { recv_buf = slice (r * chunk) chunk sb }) (sym z)
          | inr y ↦
              let z : r ≢ root = λ z. ground (arith, y, z) in
              taken n root chunk opened n r z a
              ∙ ap₂ (λ m b. filled m b) (given r at_root)
                  (other_passes n r root (init r) (opened r) p z (e r a))
              ∙ ap (λ x. record (init r) { recv_buf = x })
                  (write-whole (slice (r * chunk) chunk sb) (init r).recv_buf (
                    length-slice (r * chunk) chunk sb (omega (arith, total, chunk_fits n r chunk a))
                    ∙ sym (sized r a)))
        ]))
  where
    given :
        (r : ℕ)
        → opened root ≡ record (init root) {
          recv_buf = slice (root * length (init root).recv_buf) (length (init root).recv_buf) sb;
        }
        → part chunk r (opened root) ≡ slice (r * chunk) chunk sb
    given r at_root =
        ap (part chunk r) at_root
        ∙ ap
            (λ x. part chunk r (record {
              send_buf = x;
              recv_buf =
                  slice (root * length (init root).recv_buf) (length (init root).recv_buf) sb;
            }))
            s
