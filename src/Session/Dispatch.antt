-- ===== src/Session/Dispatch.antt =====
-- Handing segments to the scheduler and taking its results: app/session/state.py.
use my_vote_server.Translation.Scheduler.{
  Outcome as Answer, accepted, refused, scheduler_closed, stale_revision, queue_full,
}
use my_vote_server.Base.{
  ℕ, Bool, not, ◌&&◌, ◌||◌, Option, none, some, List, [], ◌∷◌, map, ◌==◌, if◌then◌else◌, is_some,
  get_or_else, is_empty, filter, Text,
}
use my_vote_server.Context.{snapshot as context_snapshot}
use my_vote_server.Context.{ContextEntry, ContextManager, replace}
use my_vote_server.Translation.Job.{TranslationJob}
use my_vote_server.Session.State.{
  Status, running, Segment, Settings, queue_overflow, submit_job, Session, is_ready, is_complete,
}
use my_vote_server.Session.Output.{emit_error, arm, call}

-- The first segment of a list that a test holds of.
unfoldable pub first_segment : (Segment → Bool) → List Segment → Option Segment
first_segment p [] = none
first_segment p (x ∷ xs) = let later = first_segment p xs in if p x then some x else later

-- The segments in front of the one with an identifier.
unfoldable pub before_segment : ℕ → List Segment → List Segment
before_segment sid [] = []
before_segment sid (x ∷ xs) =
    let rest = before_segment sid xs in if x.segment_id == sid then [] else x ∷ rest

-- A change to the segment with an identifier; the others stay.
unfoldable pub update_segment : ℕ → (Segment → Segment) → List Segment → List Segment
update_segment sid f [] = []
update_segment sid f (x ∷ xs) =
    let rest = update_segment sid f xs in if x.segment_id == sid then f x ∷ rest else x ∷ rest

unfoldable pub context_entry : Segment → ContextEntry
context_entry x = record {
  segment_id = x.segment_id;
  source = x.source;
  translation = x.translation;
  speaker_id = x.speaker_id;
}

unfoldable pub has_result : Segment → Bool
has_result x = not (is_empty x.translation) && is_complete x.status

-- The job of a segment, with the finished segments in front of it as its context.
unfoldable pub job_of :
    {T : Type 0}
    → Settings
    → (Text → List (Text × Text))
    → ContextManager
    → ℕ
    → Segment
    → Session T
    → TranslationJob
unfolding before_segment context_entry has_result
job_of settings glossary_for manager clock x s =
    let filled =
      replace (map context_entry (filter has_result (before_segment x.segment_id s.segments)))
        manager in
    let (sources, translations) = context_snapshot filled in
    record {
      session_id = s.session_id;
      generation_id = s.generation_id;
      sequence = x.sequence;
      source_revision = x.source_revision;
      segment_id = x.segment_id;
      source = x.source;
      source_language = s.source_language;
      target_language = s.target_language;
      source_context = sources;
      translation_context = translations;
      glossary = glossary_for x.source;
      final = x.final_source;
      created_at = clock;
      model = some settings.translation_model;
      temperature = some (get_or_else s.temperature settings.translation_temperature);
    }

unfoldable pub set_status : Status → Segment → Segment
set_status status x = record x { status = status }

module _ {T : Type 0} (settings : Settings) (manager : ContextManager)
    (glossary_for : Text → List (Text × Text)) where
  -- The rest of `_dispatch_next` for the chosen segment, with the answer of `submit`. An error
  -- other than QueueCapacityError is not caught: it leaves the handler as an exception, with the
  -- segment ready and the session as it is here.
  unfoldable pub dispatch_segment : Answer → ℕ → Segment → Session T → Session T
  unfolding job_of call emit_error arm update_segment set_status
  dispatch_segment outcome clock x s =
      let asked = call (submit_job (job_of settings glossary_for manager clock x s)) s in
      elim outcome [
        | accepted ↦ record asked {
          segments = update_segment x.segment_id (set_status running) s.segments;
          active_segment = some x.segment_id;
        }
        | refused queue_full ↦ arm x.utterance_id (emit_error settings queue_overflow asked)
        | refused scheduler_closed ↦ asked
        | refused stale_revision ↦ asked
      ]

  -- `_dispatch_next`: one job of the session at a time, the first ready segment first.
  unfoldable pub dispatch_next : Answer → ℕ → Session T → Session T
  unfolding first_segment dispatch_segment
  dispatch_next outcome clock s =
      if s.closed || not (is_some s.queue) || is_some s.active_segment
      then s
      else elim (first_segment (λ x. is_ready x.status) s.segments) [
        | none ↦ s
        | some x ↦ dispatch_segment outcome clock x s
      ]
