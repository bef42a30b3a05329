-- ===== src/Policy.antt =====
-- app/streaming/policy.py: whether a candidate segment is written now. Scores are fractions of
-- `one`; every number is only compared.
pub mod Writes
mod Samples
use Prim.Native.String.{String}
use my_vote_server.Base.{
  ℕ, Bool, false, not, ◌&&◌, ◌||◌, Option, none, some, ltb, leb, if◌then◌else◌, Text,
}

abbrev pub one : ℕ
one = 1000000000000

-- app/streaming/segmentation.py: a prefix of the source that may be translated.
pub record SegmentCandidate : Type 0 where
  pub start : ℕ
  pub stop : ℕ
  pub text : Text
  pub complete : Bool
  pub reason : String
  pub token_count : ℕ
  pub strong_boundary : Bool

pub data Action : Type 0 where
  read write : Action

pub record PolicyDecision : Type 0 where
  pub action : Action
  pub reason : String
  pub segment : Option SegmentCandidate

pub record ReadWritePolicy : Type 0 where
  pub stability_threshold : ℕ
  pub min_stable_tokens : ℕ
  pub min_segment_tokens : ℕ
  pub target_segment_tokens : ℕ
  pub max_latency_ms : ℕ
  pub pause_threshold_ms : ℕ

-- `__init__`; `none` is its ValueError.
pub make : ReadWritePolicy → Option ReadWritePolicy
make p =
    if ltb one p.stability_threshold
      || ltb p.min_stable_tokens 1
      || ltb p.min_segment_tokens 1
      || ltb p.target_segment_tokens 1
      || ltb p.max_latency_ms 1
      || ltb p.pause_threshold_ms 1
    then none
    else some p

-- What the tracker and the clock say of the source of a candidate.
pub record Evidence : Type 0 where
  pub stability_score : ℕ
  pub stable_token_count : ℕ
  pub age_ms : ℕ
  pub pause_ms : Option ℕ
  pub is_final : Bool
  pub prefix_conflict : Bool

pub reads : String → PolicyDecision
reads why = record { action = read; reason = why; segment = none }

pub writes : String → SegmentCandidate → PolicyDecision
writes why c = record { action = write; reason = why; segment = some c }

pub paused : ReadWritePolicy → Option ℕ → Bool
paused p none = false
paused p (some pause) = leb p.pause_threshold_ms pause

pub due : ReadWritePolicy → Evidence → Bool
unfolding paused
due p e = e.is_final || leb p.max_latency_ms e.age_ms || paused p e.pause_ms

-- `decide` on a candidate that is complete.
pub decide_complete : ReadWritePolicy → SegmentCandidate → Evidence → PolicyDecision
unfolding due reads writes
decide_complete p c e =
    if not (leb p.stability_threshold e.stability_score && leb e.stability_score one)
      || ltb e.stable_token_count c.token_count
    then reads "unstable_source"
    else if c.strong_boundary
    then writes "complete_boundary" c
    else if ltb e.stable_token_count p.min_stable_tokens
    then reads "short_stable_prefix"
    else if leb p.target_segment_tokens c.token_count
        || leb p.min_segment_tokens c.token_count && due p e
    then writes "complete_source" c
    else reads "collecting_complete_context"

-- `decide`.
pub decide : ReadWritePolicy → Option SegmentCandidate → Evidence → PolicyDecision
unfolding decide_complete reads
decide p candidate e =
    if e.prefix_conflict then reads "committed_prefix_conflict" else elim candidate [
      | none ↦ reads "incomplete_source"
      | some c ↦ if c.complete then decide_complete p c e else reads "incomplete_source"
    ]
