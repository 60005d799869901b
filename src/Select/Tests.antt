-- ===== src/Select/Tests.antt =====
-- Two counters that race.
use pluvio.Base.{ℕ, suc, zero, ◌≡◌, refl, Poll, ready, pending}
use pluvio.Select.{left, right, new, poll_second, poll_select}

abbrev count_down : ℕ → Poll ℕ × ℕ
count_down zero = (ready 0, zero)
count_down (suc n) = (pending, n)

-- Of two that are ready at once the first answers, and where the first is not ready the second does.
left_first : (poll_select count_down count_down (new 0 0)).0 ≡ ready (left 0)
unfolding poll_select
left_first = refl

right_ready : (poll_select count_down count_down (new 1 0)).0 ≡ ready (right 0)
unfolding poll_select poll_second
right_ready = refl
