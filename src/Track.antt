-- ===== src/Track.antt =====
-- pluvio_runtime/src/track.rs: the track ids of tasks, and the future that holds one while it runs.
mod Ids
mod Sharing
mod Tests
use pluvio.Base.{
  ℕ, zero, suc, ◌+◌, ◌%◌, ◌^◌, Bool, Option, none, some, List, [], ◌∷◌, ◌++◌, ◌==◌, if◌then◌else◌,
  Poll, is_ready,
}

-- `TrackIdAllocator`, and the thread's `CURRENT_TRACK_ID`.
pub record Tracks : Type 0 where
  pub available_ids : List ℕ
  pub next_id : ℕ
  pub current : ℕ

-- `TrackIdAllocator::new`; 0 is the main track.
abbrev pub no_tracks : Tracks
no_tracks = record { available_ids = []; next_id = 1; current = 0 }

-- `fetch_add` wraps around.
abbrev pub next_track : Tracks → List ℕ → ℕ × Tracks
next_track s [] = (s.next_id, record s { next_id = (s.next_id + 1) % 2 ^ 64 })
next_track s (id ∷ ids) = (id, record s { available_ids = ids })

unfoldable pub acquire : Tracks → ℕ × Tracks
acquire s = next_track s s.available_ids

unfoldable pub release : ℕ → Tracks → Tracks
release id s = if id == 0 then s else record s { available_ids = s.available_ids ++ id ∷ [] }

-- The id that a future has for this poll: the one that it holds, or a new one.
abbrev pub held_id : Option ℕ → Tracks → ℕ × Tracks
held_id none s = acquire s
held_id (some id) s = (id, s)

-- `TrackedFuture::poll`; a future is its `track_id`, and `inner` is the poll of the future within, which may
-- change a state of its own.
unfoldable pub poll_tracked :
    {A X : Type 0}
    → (X → Tracks → X × Tracks × Poll A)
    → Option ℕ
    → X
    → Tracks
    → Option ℕ × X × Tracks × Poll A
poll_tracked inner track_id x s =
    let (id, s1) = held_id track_id s in
    let (y, s2, result) = inner x (record s1 { current = id }) in
    let s3 : Tracks = record s2 { current = s1.current } in
    if is_ready result then (none, y, release id s3, result) else (some id, y, s3, result)
