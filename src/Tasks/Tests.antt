-- ===== src/Tasks/Tests.antt =====
-- A task that is done at its second poll.
use pluvio.Base.{ℕ, suc, zero, ◌≡◌, refl, List, [], ◌∷◌, ok, Poll, ready, pending}
use pluvio.Tasks.{
  create_task_and_handle, poll_wrapped, poll_join, Event, task_polled, handle_polled, act, act_all,
}
use pluvio.Tasks.Joining.{last_waker, unanswered, answered, joins}

abbrev count_down : ℕ → Poll ℕ × ℕ
count_down zero = (ready 42, zero)
count_down (suc n) = (pending, n)

abbrev before : List Event
before = handle_polled 3 ∷ task_polled ∷ handle_polled 4 ∷ []

abbrev after : List Event
after = handle_polled 4 ∷ handle_polled 4 ∷ []

joins_example :
    let (s, ps) = act_all count_down before (create_task_and_handle 1) in
    let t = poll_wrapped count_down s in
    (ps ≡ pending ∷ pending ∷ [])
    × (s.woken ≡ [])
    × (t.woken ≡ 4 ∷ [])
    × ((act_all count_down after t).1 ≡ ready (ok 42) ∷ pending ∷ [])
unfolding last_waker unanswered answered act_all act poll_wrapped poll_join
joins_example = joins count_down 1 0 42 before after refl refl
