-- ===== src/Engine/Captions/Export/Timing.antt =====
-- The times of subtitles in MyVote-Speaker-Update/src/myvote_engine/captions.py.
use my_vote_server.Base.{ℕ, ◌+◌, ◌-◌, ◌*◌, ◌/◌, ◌≤◌, ◌<◌, ◌≡◌, subst, some, arith, Text}
use my_vote_server.Engine.Captions.Export.{ns_per_ms, Offset, Cue, shift, cue_of}

-- A subtitle covers the time of its caption, moved by the offset: it starts at most a millisecond
-- early and ends at most a millisecond late, both times less than one whole millisecond, and it
-- never has no duration.
pub record IsTight (start_ns end_ns : ℕ) (c : Cue) : Type 0 where
  pub starts : c.start_ms * ns_per_ms ≤ start_ns
  pub starts_close : start_ns < c.start_ms * ns_per_ms + ns_per_ms
  pub ends : end_ns ≤ c.end_ms * ns_per_ms
  pub ends_close : c.end_ms * ns_per_ms < end_ns + ns_per_ms
  pub lasts : c.start_ms < c.end_ms

-- The subtitle that is made for a caption's times and an offset covers the moved times, starts and
-- ends less than a millisecond away from them, and lasts.
pub cue_of-IsTight :
    (o : Offset) (start_ns end_ns start stop : ℕ) (body : Text) (c : Cue)
    → shift o start_ns ≡ some start
    → shift o end_ns ≡ some stop
    → cue_of o start_ns end_ns body ≡ some c
    → IsTight start stop c
unfolding cue_of
cue_of-IsTight o start_ns end_ns start stop body c s t e =
    subst (IsTight start stop) {x = made} {y = c} (ground (arith, s, t, e)) (record {
      starts = omega (arith, positive);
      starts_close = omega (arith, positive);
      ends = omega (arith, positive);
      ends_close = omega (arith, positive);
      lasts = omega (arith, positive);
    })
  where
    made : Cue
    made = record {
      start_ms = start / ns_per_ms;
      end_ms = (stop + ns_per_ms - 1) / ns_per_ms;
      body = body;
    }

    positive : start < stop
    positive = ground (arith, s, t, e)
