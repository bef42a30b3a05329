-- ===== src/Engine/Ingress.antt =====
-- MyVote-Speaker-Update/src/myvote_engine/ingress_timing.py: when each frame of a track was
-- received. Tracks and epochs are numbers, times of the source are in nanoseconds, and the server's
-- clock counts ticks; a reading of it that is not finite is `none`.
pub mod Receipts
pub mod Windows
pub mod Lookups
pub mod Answers
mod Samples
use my_vote_server.Base.{
  ℕ, ◌+◌, ◌*◌, Bool, true, false, not, ◌&&◌, ◌||◌, Option, none, some, List, [], ◌∷◌, ltb, leb,
  ◌==◌, if◌then◌else◌, is_some, length,
}

abbrev pub sample_rate : ℕ
sample_rate = 16000

abbrev pub sample_ns : ℕ
sample_ns = 62500

-- AudioFrame of audio.py, with the number of its samples in place of them.
pub record AudioFrame : Type 0 where
  pub track_id : ℕ
  pub capture_epoch : ℕ
  pub sequence : ℕ
  pub start_time_ns : ℕ
  pub samples : ℕ

unfoldable pub check_frame : AudioFrame → Bool
check_frame f =
    ltb 0 f.track_id && ltb 0 f.capture_epoch && leb 1 f.samples && leb f.samples sample_rate

abbrev pub end_time_ns : AudioFrame → ℕ
end_time_ns f = f.start_time_ns + f.samples * sample_ns

pub record Receipt : Type 0 where
  pub track : ℕ
  pub epoch : ℕ
  pub start_ns : ℕ
  pub end_ns : ℕ
  pub sequence : ℕ
  pub received_at : ℕ
  pub continuity : ℕ

-- `frames` is the deque from its newest entry on.
pub record IngressTimeline : Type 0 where
  pub max_frames : ℕ
  pub frames : List Receipt
  pub last : Option Receipt
  pub continuity : ℕ
  pub gap_pending : Bool
  pub observed : ℕ
  pub evicted : ℕ
  pub lookup_misses : ℕ

-- `__init__`; none is its ValueError.
unfoldable pub make : ℕ → Option IngressTimeline
make max_frames =
    if not (leb 1 max_frames && leb max_frames 200000)
    then none
    else some (record {
      max_frames = max_frames;
      frames = [];
      last = none;
      continuity = 0;
      gap_pending = false;
      observed = 0;
      evicted = 0;
      lookup_misses = 0;
    })

unfoldable pub gap : IngressTimeline → IngressTimeline
gap t = record t { gap_pending = true }

-- A frame that the timeline refuses: of another track or an earlier time, or received in the past.
unfoldable pub refuses : AudioFrame → ℕ → Option Receipt → Bool
refuses f received_at none = false
refuses f received_at (some last) =
    not (f.track_id == last.track)
    || ltb f.start_time_ns last.end_ns
    || ltb received_at last.received_at

unfoldable pub is_broken : Bool → AudioFrame → Option Receipt → Bool
is_broken gap_pending f none = false
is_broken gap_pending f (some last) =
    gap_pending
    || not (f.capture_epoch == last.epoch)
    || not (f.sequence == last.sequence + 1)
    || not (f.start_time_ns == last.end_ns)

unfoldable pub next_continuity : AudioFrame → IngressTimeline → ℕ
unfolding is_broken
next_continuity f t = if is_broken t.gap_pending f t.last then t.continuity + 1 else t.continuity

unfoldable pub entry_of : AudioFrame → ℕ → IngressTimeline → Receipt
unfolding next_continuity
entry_of f received_at t = record {
  track = f.track_id;
  epoch = f.capture_epoch;
  start_ns = f.start_time_ns;
  end_ns = end_time_ns f;
  sequence = f.sequence;
  received_at = received_at;
  continuity = next_continuity f t;
}

-- `popleft`.
unfoldable pub drop_oldest : List Receipt → List Receipt
drop_oldest [] = []
drop_oldest (x ∷ []) = []
drop_oldest (x ∷ (y ∷ ys)) = x ∷ drop_oldest (y ∷ ys)

unfoldable pub append : Receipt → IngressTimeline → IngressTimeline
unfolding drop_oldest
append entry t =
    let full = length t.frames == t.max_frames in
    record t {
      frames = entry ∷ (if full then drop_oldest t.frames else t.frames);
      last = some entry;
      continuity = entry.continuity;
      gap_pending = false;
      observed = t.observed + 1;
      evicted = if full then t.evicted + 1 else t.evicted;
    }

-- `observe`; none is its ValueError.
unfoldable pub observe : AudioFrame → Option ℕ → IngressTimeline → Option IngressTimeline
unfolding refuses entry_of append
observe f none t = none
observe f (some received_at) t =
    if refuses f received_at t.last then none else some (append (entry_of f received_at t) t)

-- The frame that holds the end of a clause.
unfoldable pub holds_end : ℕ → ℕ → ℕ → Receipt → Bool
holds_end track epoch end_ns x =
    ltb x.start_ns end_ns && leb end_ns x.end_ns && x.track == track && x.epoch == epoch

-- From that frame back to the one that holds the start.
unfoldable pub find_start : ℕ → Receipt → List Receipt → Option ℕ
find_start start_ns endpoint [] = none
find_start start_ns endpoint (x ∷ xs) =
    let rest = find_start start_ns endpoint xs in
    if not (x.continuity == endpoint.continuity)
    then none
    else if leb x.start_ns start_ns
    then some endpoint.received_at
    else rest

unfoldable pub find_end : ℕ → ℕ → ℕ → ℕ → List Receipt → Option ℕ
unfolding holds_end find_start
find_end track epoch start_ns end_ns [] = none
find_end track epoch start_ns end_ns (x ∷ xs) =
    let rest = find_end track epoch start_ns end_ns xs in
    if holds_end track epoch end_ns x then find_start start_ns x (x ∷ xs) else rest

unfoldable pub lookup : ℕ → ℕ → ℕ → ℕ → IngressTimeline → Option ℕ
unfolding find_end
lookup track epoch start_ns end_ns t =
    if leb end_ns start_ns then none else find_end track epoch start_ns end_ns t.frames

-- `anchor`.
unfoldable pub anchor : ℕ → ℕ → ℕ → ℕ → IngressTimeline → Option ℕ × IngressTimeline
unfolding lookup
anchor track epoch start_ns end_ns t =
    let found = lookup track epoch start_ns end_ns t in
    (found, if is_some found then t else record t { lookup_misses = t.lookup_misses + 1 })

pub record Summary : Type 0 where
  pub observed_frames : ℕ
  pub retained_frames : ℕ
  pub evicted_frames : ℕ
  pub lookup_misses : ℕ
  pub max_frames : ℕ

unfoldable pub summary : IngressTimeline → Summary
summary t = record {
  observed_frames = t.observed;
  retained_frames = length t.frames;
  evicted_frames = t.evicted;
  lookup_misses = t.lookup_misses;
  max_frames = t.max_frames;
}
