-- ===== src/Track/Tests.antt =====
-- Two tracked futures, and the theorem at them.
use pluvio.Base.{ℕ, ◌<◌, ◌≡◌, refl, true, false, none, some, arith}
use pluvio.Track.{no_tracks, acquire, release, poll_tracked}
use pluvio.Track.Ids.{Avoids}
use pluvio.Track.Sharing.{
  Polls, no_more, poll_of, World, all_polled, count, Without, IsNested, all_polled-apart,
}

-- Future 0 polls future 3 within itself and ends, so that future 2 gets its track.
abbrev polls : Polls
polls = poll_of 0 (poll_of 3 no_more false no_more) false (
    poll_of 1 no_more false
      (poll_of 0 (poll_of 3 no_more true no_more) true (poll_of 2 no_more false no_more)))

abbrev blank : World
blank = record { tracks = no_tracks; ids = λ i. none }

reused : ((all_polled polls blank).ids 2 ≡ some 2) × ((all_polled polls blank).tracks.current ≡ 0)
unfolding all_polled poll_tracked acquire release
reused = (refl, refl)

polls-IsNested : IsNested polls
unfolding IsNested Without
polls-IsNested = (
  ((λ e. ground (arith, e)), tt, tt),
  (tt, tt, tt),
  (tt, tt, (((λ e. ground (arith, e)), tt, tt), (tt, tt, tt), (tt, tt, tt))),
)

all_polled-apart_example :
    (0 < 3)
    × Avoids 3 (all_polled polls blank).tracks.available_ids
    × ((j : ℕ) → (all_polled polls blank).ids j ≡ some 3 → j ≡ 1)
unfolding all_polled poll_tracked acquire release count
all_polled-apart_example = all_polled-apart polls 1 3 polls-IsNested (ground arith) refl
