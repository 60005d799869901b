-- ===== src/Collective/Lanes/Seen.antt =====
-- One turn of a chain, as each chain sees it: its own network makes that turn, the others' stay.
use pluvio.Base.{
  ℕ, ◌+◌, ◌<◌, ◌≡◌, ◌≢◌, inl, inr, refl, sym, ap, subst, ◌∙◌, true, some, [], ◌∷◌, ◌++◌, ◌==◌,
  ==_iff, ==_refl, if_true, if_false, Bool-cases, Option-cases, arith,
}
use pluvio.Collective.Network.{Protocol, Letter, Net, put, addressed, pick, turn}
use pluvio.Collective.Turns.{started, posted, ended, received}
use pluvio.Collective.Agreement.{put_self, put_other}
use pluvio.Collective.Lanes.{Pipeline, Pipes, net, set_net}
use pluvio.Collective.Lanes.Letters.{
  mail_of, mail_of-append_own, mail_of-append_other, pick-mail_of, mail_of-discard,
  mail_of-discard_other,
}
use pluvio.Collective.Lanes.Views.{
  net_ext, able, turn_idle, turn_silent, turn_sends, turn_passes, turn_waits, turn_takes, alone,
  Shares, AllFine, AllFine-append, AllFine-discard, pick-fine,
}

-- Writing at one number of a store.
put_map :
    {A C : Type 0} (f : A → C) (r : ℕ) (a : A) (c : C) (g : ℕ → A) (i : ℕ)
    → f a ≡ c
    → f (put r a g i) ≡ put r c (λ i. f (g i)) i
put_map f r a c g i h = elim (Bool-cases (i == r)) [ inl e ↦ rw (e) h | inr e ↦ rw (e) refl ]

put_own : {A : Type 0} (r i : ℕ) (g : ℕ → A) → put r (g r) g i ≡ g i
put_own r i g = elim (Bool-cases (i == r)) [
  | inl e ↦ rw (e) (ap g (sym ((==_iff i r).0 e)))
  | inr e ↦ rw (e) refl
]

put_all :
    {A : Type 0} (Ok : A → Type 0) (r : ℕ) (a : A) (g : ℕ → A) (i : ℕ)
    → Ok a
    → Ok (g i)
    → Ok (put r a g i)
put_all Ok r a g i h k = elim (Bool-cases (i == r)) [ inl e ↦ rw (e) h | inr e ↦ rw (e) k ]

module _ {B X M K : Type 0} {p : Pipeline B M K} {send : ℕ → ℕ → ℕ → X → M}
    {take : ℕ → ℕ → ℕ → X → M → X} {view : ℕ → B → X} {lane_of : K → ℕ} {Good : B → Type 0}
    {Fine : M → Type 0} (apart : Shares p send take view lane_of Good Fine) where
  abbrev pub seen : ℕ → Pipes B M K → Net X M K
  seen m t = record {
    held = λ r. view m (t.held r);
    pc = t.pc m;
    sent = t.sent m;
    mail = mail_of lane_of m t.mail;
  }

  -- Buffers and letters have the right lengths.
  pub record IsSized (t : Pipes B M K) : Type 0 where
    pub buffers : (r : ℕ) → r < p.ranks → Good (t.held r)
    pub letters : AllFine Fine t.mail

  module _ (m r : ℕ) (t : Pipes B M K) (h : m < p.lanes) (good : IsSized t) where
    abbrev shared : Protocol B M K
    shared = p.lane m

    abbrev view_of_chain : Protocol X M K
    view_of_chain = alone p send take m

    -- What a chain's turn does to what each chain sees.
    pub record Moved (u : Net B M K) : Type 0 where
      pub own : seen m (set_net m u t) ≡ turn view_of_chain r (seen m t)
      pub others : (j : ℕ) → j < p.lanes → j ≢ m → seen j (set_net m u t) ≡ seen j t
      pub sized : IsSized (set_net m u t)

    seen_own :
        (u : Net B M K) (w : Net X M K)
        → ((i : ℕ) → view m (u.held i) ≡ w.held i)
        → u.pc ≡ w.pc
        → u.sent ≡ w.sent
        → mail_of lane_of m u.mail ≡ w.mail
        → seen m (set_net m u t) ≡ w
    seen_own u w a b c d =
        net_ext (seen m (set_net m u t)) w a (put_self m u.pc t.pc ∙ b)
          (put_self m u.sent t.sent ∙ c) d

    seen_other :
        (u : Net B M K) (j : ℕ)
        → j ≢ m
        → ((i : ℕ) → view j (u.held i) ≡ view j (t.held i))
        → mail_of lane_of j u.mail ≡ mail_of lane_of j t.mail
        → seen j (set_net m u t) ≡ seen j t
    seen_other u j n a d =
        net_ext (seen j (set_net m u t)) (seen j t) a (put_other m j u.pc t.pc n)
          (put_other m j u.sent t.sent n) d

    -- A turn that touches neither the buffers nor the letters.
    quiet :
        (u : Net B M K)
        → u.held ≡ t.held
        → u.mail ≡ t.mail
        → seen m (set_net m u t) ≡ turn view_of_chain r (seen m t)
        → Moved u
    quiet u a d e = record {
      own = e;
      others = λ j b n. seen_other u j n (λ i. ap (λ f. view j (f i)) a) (ap (mail_of lane_of j) d);
      sized = record {
        buffers = λ i b. subst (λ f. Good (f i)) (sym a) (good.buffers i b);
        letters = subst (AllFine Fine) (sym d) good.letters;
      };
    }

    moved_idle : turn view_of_chain r (seen m t) ≡ seen m t → Moved (net m t)
    moved_idle e =
        quiet (net m t) refl refl (seen_own (net m t) (seen m t) (λ i. refl) refl refl refl ∙ sym e)

    moved_silent :
        turn view_of_chain r (seen m t) ≡ started view_of_chain r (seen m t)
        → Moved (started shared r (net m t))
    moved_silent e =
        let u = started shared r (net m t) in
        quiet u refl refl
          (seen_own u (started view_of_chain r (seen m t)) (λ i. refl) refl refl refl ∙ sym e)

    moved_passes :
        turn view_of_chain r (seen m t) ≡ ended view_of_chain r (seen m t)
        → Moved (ended shared r (net m t))
    moved_passes e =
        let u = ended shared r (net m t) in
        quiet u refl refl
          (seen_own u (ended view_of_chain r (seen m t)) (λ i. refl) refl refl refl ∙ sym e)

    module _ (a : r < p.ranks) (b : t.pc m r < p.half + p.half) where
      moved_sends :
          (d : ℕ)
          → turn view_of_chain r (seen m t) ≡ posted view_of_chain r d (seen m t)
          → Moved (posted shared r d (net m t))
      unfolding alone
      moved_sends d e =
          let u = posted shared r d (net m t) in
          let (f, g) = apart.sends_view m (t.pc m r) r (t.held r) h a b (good.buffers r a) in
          let l : Letter M K = record {
            to = d;
            label = shared.key (t.pc m r) r;
            content = shared.payload (t.pc m r) r (t.held r);
          } in
          let mine : lane_of l.label ≡ m = apart.named m (t.pc m r) r h in
          record {
            own =
                seen_own u (posted view_of_chain r d (seen m t)) (λ i. refl) refl refl
                  (mail_of-append_own lane_of m t.mail l mine
                    ∙ ap
                        (λ c.
                          mail_of lane_of m t.mail
                          ++ (record { to = d; label = l.label; content = c }) ∷ [])
                        f)
                ∙ sym e;
            others = λ j c n.
                seen_other u j n (λ i. refl)
                  (mail_of-append_other lane_of j t.mail l (λ q. n (sym q ∙ mine)));
            sized = record {
              buffers = good.buffers;
              letters = AllFine-append shared Fine t.mail l good.letters g;
            };
          }

      moved_takes :
          (s : ℕ) (x : M)
          → pick shared r (shared.key (t.pc m r) s) t.mail ≡ some x
          → turn view_of_chain r (seen m t) ≡ received view_of_chain r s x (seen m t)
          → Moved (received shared r s x (net m t))
      unfolding alone
      moved_takes s x q e =
          let u = received shared r s x (net m t) in
          let k = t.pc m r in
          let fine = pick-fine shared Fine r (shared.key k s) t.mail x good.letters q in
          let (f, g) = apart.takes_view m k r (t.held r) x h a b (good.buffers r a) fine in
          let new = shared.absorb k r (t.held r) x in
          let ours : (l : Letter M K)
              → addressed shared r (shared.key k s) l ≡ true
              → lane_of l.label ≡ m =
            λ l y. apart.known l.label m k s h (ground (arith, y)) in
          record {
            own =
                seen_own u (received view_of_chain r s x (seen m t))
                  (λ i. put_map (view m) r new (take m k r (view m (t.held r)) x) t.held i (
                    g m h
                    ∙ if_true (m == m) (take m k r (view m (t.held r)) x) (view m (t.held r))
                        (==_refl m)))
                  refl refl (mail_of-discard lane_of shared m r (shared.key k s) ours t.mail)
                ∙ sym e;
            others = λ j c n.
                seen_other u j n
                  (λ i.
                    put_map (view j) r new (view j (t.held r)) t.held i (
                      g j c
                      ∙ if_false (j == m) (take m k r (view j (t.held r)) x) (view j (t.held r))
                          (ground (arith, n)))
                    ∙ put_own r i (λ i. view j (t.held i)))
                  (mail_of-discard_other lane_of shared m r (shared.key k s) ours j t.mail n);
            sized = record {
              buffers = λ i c. put_all Good r new t.held i f (good.buffers i c);
              letters = AllFine-discard shared Fine r (shared.key k s) t.mail good.letters;
            };
          }

    pub turn-Moved : Moved (turn shared r (net m t))
    unfolding alone
    turn-Moved =
        let (size, rounds) = apart.shape m in
        let n = net m t in
        elim (Bool-cases (able shared r n)) [
          | inr e ↦
              subst Moved (sym (turn_idle shared r n e))
                (moved_idle (turn_idle view_of_chain r (seen m t) e))
          | inl e ↦
              let a : r < p.ranks = ground (arith, e, size) in
              let b : t.pc m r < p.half + p.half = ground (arith, e, rounds) in
              elim (Bool-cases (t.sent m r)) [
                | inr f ↦ elim (Option-cases (shared.dest (t.pc m r) r)) [
                  | inl g ↦
                      subst Moved (sym (turn_silent shared r n e f g))
                        (moved_silent (turn_silent view_of_chain r (seen m t) e f g))
                  | inr (d, g) ↦
                      subst Moved (sym (turn_sends shared r n d e f g))
                        (moved_sends a b d (turn_sends view_of_chain r (seen m t) d e f g))
                ]
                | inl f ↦ elim (Option-cases (shared.source (t.pc m r) r)) [
                  | inl g ↦
                      subst Moved (sym (turn_passes shared r n e f g))
                        (moved_passes (turn_passes view_of_chain r (seen m t) e f g))
                  | inr (s, g) ↦
                      let same : pick shared r (shared.key (t.pc m r) s) (mail_of lane_of m t.mail)
                          ≡ pick shared r (shared.key (t.pc m r) s) t.mail =
                        pick-mail_of lane_of shared m r (shared.key (t.pc m r) s)
                          (λ l y. apart.known l.label m (t.pc m r) s h (ground (arith, y)))
                          t.mail in
                      elim (Option-cases (pick shared r (shared.key (t.pc m r) s) t.mail)) [
                        | inl q ↦
                            subst Moved (sym (turn_waits shared r n s e f g q)) (
                              moved_idle (turn_waits view_of_chain r (seen m t) s e f g (same ∙ q)))
                        | inr (x, q) ↦ subst Moved (sym (turn_takes shared r n s x e f g q)) (
                            moved_takes a b s x q
                              (turn_takes view_of_chain r (seen m t) s x e f g (same ∙ q)))
                      ]
                ]
              ]
        ]
