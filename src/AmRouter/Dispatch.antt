-- ===== src/AmRouter/Dispatch.antt =====
-- pluvio_collective/src/ucx_backend/am_router.rs: a receive that is registered is completed by the first
-- message of its key, whatever other messages `dispatcher_loop` routes before and after.
use pluvio.Base.{
  ℕ, ◌≡◌, ◌≢◌, ◌⊎◌, refl, sym, ap, ◌∙◌, inl, inr, true, false, some, List, [], ◌∷◌, ◌++◌,
  Option-cases, Result, ok, err, arith,
}
use pluvio.AmRouter.Header.{
  AmHeader, RecvKey, recv_key, decode, same_key, same_key_refl, same_key→≡,
}
use pluvio.AmRouter.Slots.{find, remove, insert, find-remove, find-insert}
use pluvio.AmRouter.{
  PendingRecv, Slot, waiting, early, State, copy_into, complete, deliver, Message, dispatch,
  dispatcher_loop,
}
use pluvio.AmRouter.Delivery.{deliver-free, deliver-waiting, deliver-early, put_self, put_other}

-- No receive that waits has the flag or the target of `p`.
unfoldable pub IsRetired : PendingRecv → State → Type 0
IsRetired p s =
    (j : RecvKey) (q : PendingRecv)
    → find j s.slots ≡ some (waiting q)
    → (p.flag ≢ q.flag) × (p.target ≢ q.target)

-- `p` waits at `key`, and no other receive that waits has its flag or its target.
unfoldable pub IsOwner : RecvKey → PendingRecv → State → Type 0
IsOwner key p s =
    (find key s.slots ≡ some (waiting p))
    × ((j : RecvKey) (q : PendingRecv)
        → find j s.slots ≡ some (waiting q)
        → same_key j key ≡ false
        → (p.flag ≢ q.flag) × (p.target ≢ q.target))

-- The flag and the target of `p` hold in `t` what they hold in `s`.
abbrev Untouched : PendingRecv → State → State → Type 0
Untouched p s t = (t.buffers p.target ≡ s.buffers p.target) × (t.is_done p.flag ≡ s.is_done p.flag)

waits-remove :
    (j i : RecvKey) (m : List (RecvKey × Slot)) (q : PendingRecv)
    → find i (remove j m) ≡ some (waiting q)
    → (find i m ≡ some (waiting q)) × (same_key i j ≡ false)
waits-remove j i m q h = ground (arith, h, find-remove i j m)

waits-insert :
    (j i : RecvKey) (bytes : List ℕ) (m : List (RecvKey × Slot)) (q : PendingRecv)
    → find i (insert j (early bytes) m) ≡ some (waiting q)
    → (find i m ≡ some (waiting q)) × (same_key i j ≡ false)
waits-insert j i bytes m q h = ground (arith, h, find-insert i j (early bytes) m)

-- Every receive that waits after a delivery waited before, and not at the key of the message.
deliver-waits :
    (j i : RecvKey) (bytes : List ℕ) (s : State) (q : PendingRecv)
    → find i (deliver j bytes s).slots ≡ some (waiting q)
    → (find i s.slots ≡ some (waiting q)) × (same_key i j ≡ false)
unfolding complete
deliver-waits j i bytes s q h = elim (Option-cases (find j s.slots)) [
  | inl e ↦
      waits-insert j i bytes s.slots q
        (sym (ap (λ x. find i x.slots) (deliver-free j bytes s e)) ∙ h)
  | inr (waiting p, e) ↦
      waits-remove j i s.slots q
        (sym (ap (λ x. find i x.slots) (deliver-waiting j bytes p s e)) ∙ h)
  | inr (early old, e) ↦
      waits-remove j i s.slots q
        (sym (ap (λ x. find i x.slots) (deliver-early j bytes old s e)) ∙ h)
]

-- A delivery at another key leaves the slot of a key.
deliver-other :
    (j i : RecvKey) (bytes : List ℕ) (s : State)
    → same_key i j ≡ false
    → find i (deliver j bytes s).slots ≡ find i s.slots
unfolding complete
deliver-other j i bytes s n = elim (Option-cases (find j s.slots)) [
  | inl e ↦ rw (deliver-free j bytes s e, find-insert i j (early bytes) s.slots, n) refl
  | inr (waiting p, e) ↦ rw (deliver-waiting j bytes p s e, find-remove i j s.slots, n) refl
  | inr (early old, e) ↦ rw (deliver-early j bytes old s e, find-remove i j s.slots, n) refl
]

-- A delivery that completes no receive with the flag or the target of `p` leaves what these hold.
deliver-Untouched :
    (j : RecvKey) (bytes : List ℕ) (p : PendingRecv) (s : State)
    → ((q : PendingRecv)
        → find j s.slots ≡ some (waiting q)
        → (p.flag ≢ q.flag) × (p.target ≢ q.target))
    → Untouched p s (deliver j bytes s)
unfolding complete
deliver-Untouched j bytes p s apart = elim (Option-cases (find j s.slots)) [
  | inl e ↦ rw (deliver-free j bytes s e) (refl, refl)
  | inr (waiting q, e) ↦
      let (f, t) = apart q e in
      rw (deliver-waiting j bytes q s e)
        (put_other q.target p.target _ s.buffers t, put_other q.flag p.flag true s.is_done f)
  | inr (early old, e) ↦ rw (deliver-early j bytes old s e) (refl, refl)
]

deliver-IsRetired :
    (j : RecvKey) (bytes : List ℕ) (p : PendingRecv) (s : State)
    → IsRetired p s
    → IsRetired p (deliver j bytes s) × Untouched p s (deliver j bytes s)
unfolding IsRetired
deliver-IsRetired j bytes p s r =
    (λ i q h. r i q (deliver-waits j i bytes s q h).0, deliver-Untouched j bytes p s (r j))

deliver-IsOwner :
    (j key : RecvKey) (bytes : List ℕ) (p : PendingRecv) (s : State)
    → same_key j key ≡ false
    → IsOwner key p s
    → IsOwner key p (deliver j bytes s) × Untouched p s (deliver j bytes s)
unfolding IsOwner
deliver-IsOwner j key bytes p s n (own, apart) = (
  (
    deliver-other j key bytes s (ground (arith, n, same_key→≡ key j, same_key_refl key)) ∙ own,
    λ i q h d. apart i q (deliver-waits j i bytes s q h).0 d,
  ),
  deliver-Untouched j bytes p s (λ q e. apart j q e n),
)

deliver-completes :
    (key : RecvKey) (bytes : List ℕ) (p : PendingRecv) (s : State)
    → IsOwner key p s
    → IsRetired p (deliver key bytes s)
      × ((deliver key bytes s).buffers p.target ≡ copy_into bytes p.len (s.buffers p.target))
      × ((deliver key bytes s).is_done p.flag ≡ true)
unfolding IsOwner IsRetired complete
deliver-completes key bytes p s (own, apart) = (
  (λ i q h. let (e, n) = deliver-waits key i bytes s q h in apart i q e n),
  rw (deliver-waiting key bytes p s own) (put_self p.target _ s.buffers),
  rw (deliver-waiting key bytes p s own) (put_self p.flag true s.is_done),
)

Result-cases :
    {A : Type 0} {E : Type 0} → (r : Result A E) → ((a : A) × (r ≡ ok a)) ⊎ ((e : E) × (r ≡ err e))
Result-cases (ok a) = inl (a, refl)
Result-cases (err e) = inr (e, refl)

-- A message does nothing, or it is a delivery at the key of its header.
dispatch-cases :
    (m : Message) (s : State)
    → (dispatch m s ≡ s)
      ⊎ ((h : AmHeader) × (bytes : List ℕ) × (decode m.header ≡ ok h)
          × (dispatch m s ≡ deliver (recv_key h) bytes s))
unfolding dispatch
dispatch-cases m s = elim (Result-cases (decode m.header)) [
  | inr (e, q) ↦ inl (rw (q, dispatch) refl)
  | inl (h, q) ↦ elim (Option-cases m.payload) [
    | inl n ↦ inl (rw (q, dispatch, n) refl)
    | inr (bytes, b) ↦ inr (h, bytes, q, rw (q, dispatch, b) refl)
  ]
]

dispatch-ok :
    (m : Message) (h : AmHeader) (bytes : List ℕ) (s : State)
    → decode m.header ≡ ok h
    → m.payload ≡ some bytes
    → dispatch m s ≡ deliver (recv_key h) bytes s
unfolding dispatch
dispatch-ok m h bytes s e b = rw (e, dispatch, b) refl

dispatch-IsRetired :
    (m : Message) (p : PendingRecv) (s : State)
    → IsRetired p s
    → IsRetired p (dispatch m s) × Untouched p s (dispatch m s)
dispatch-IsRetired m p s r = elim (dispatch-cases m s) [
  | inl e ↦ rw (e) (r, (refl, refl))
  | inr (h, bytes, q, e) ↦ rw (e) (deliver-IsRetired (recv_key h) bytes p s r)
]

dispatcher_loop-IsRetired :
    (ms : List Message) (p : PendingRecv) (s : State)
    → IsRetired p s
    → Untouched p s (dispatcher_loop ms s)
unfolding dispatcher_loop
dispatcher_loop-IsRetired [] p s r = (refl, refl)
dispatcher_loop-IsRetired (m ∷ later) p s r =
    let (r', (b, d)) = dispatch-IsRetired m p s r in
    let (b', d') = dispatcher_loop-IsRetired later p (dispatch m s) r' in (b' ∙ b, d' ∙ d)

-- No message of the list has the key.
unfoldable pub Misses : RecvKey → List Message → Type 0
Misses key [] = Unit
Misses key (m ∷ later) =
    ((h : AmHeader) → decode m.header ≡ ok h → same_key (recv_key h) key ≡ false) × Misses key later

dispatch-IsOwner :
    (m : Message) (key : RecvKey) (p : PendingRecv) (s : State)
    → ((h : AmHeader) → decode m.header ≡ ok h → same_key (recv_key h) key ≡ false)
    → IsOwner key p s
    → IsOwner key p (dispatch m s) × Untouched p s (dispatch m s)
dispatch-IsOwner m key p s miss o = elim (dispatch-cases m s) [
  | inl e ↦ rw (e) (o, (refl, refl))
  | inr (h, bytes, q, e) ↦ rw (e) (deliver-IsOwner (recv_key h) key bytes p s (miss h q) o)
]

-- The dispatcher completes a receive that waits, alone with its flag and its target, with the
-- first message of its key: the target then holds that message's bytes and the flag is set,
-- whatever messages of other keys come before, and whatever messages come after.
pub dispatcher_loop_completes :
    (before after : List Message) (m : Message) (h : AmHeader) (bytes : List ℕ) (p : PendingRecv)
    (s : State)
    → decode m.header ≡ ok h
    → m.payload ≡ some bytes
    → Misses (recv_key h) before
    → IsOwner (recv_key h) p s
    → let s' = dispatcher_loop (before ++ m ∷ after) s in
      (s'.buffers p.target ≡ copy_into bytes p.len (s.buffers p.target))
      × (s'.is_done p.flag ≡ true)
unfolding dispatcher_loop Misses
dispatcher_loop_completes [] after m h bytes p s e b miss o =
    let (retired, filled, set) = deliver-completes (recv_key h) bytes p s o in
    let (f, d) = dispatcher_loop-IsRetired after p (deliver (recv_key h) bytes s) retired in
    rw (dispatch-ok m h bytes s e b, dispatcher_loop) (f ∙ filled, d ∙ set)
dispatcher_loop_completes (n ∷ before) after m h bytes p s e b (miss, misses) o =
    let (o', (f, d)) = dispatch-IsOwner n (recv_key h) p s miss o in
    let (f', d') =
      dispatcher_loop_completes before after m h bytes p (dispatch n s) e b misses o' in
    (f' ∙ ap (copy_into bytes p.len) f, d')
