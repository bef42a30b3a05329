-- ===== src/Session/Samples.antt =====
-- A small session of app/session/state.py, and the theorems about it at small inputs.
use my_vote_server.Session.Select.{Selecting, select_segments}
use my_vote_server.Session.Selection.{select_segments-ends}
use my_vote_server.Session.Ingest.{AsrEvent, stale_sequence, refusal, ingest}
use my_vote_server.Session.Refusing.{SameButName, ingest-refused}
use my_vote_server.Base.{
  ℕ, ◌+◌, ◌≡◌, refl, inl, true, false, none, some, [], ◌∷◌, map, arith, ◌==◌, if◌then◌else◌,
  is_some, length,
}
use my_vote_server.Source.Text.{Unicode}
use my_vote_server.Policy.{SegmentCandidate}
use my_vote_server.Translation.Scheduler.{accepted}
use my_vote_server.Translation.Job.{TranslationJob}
use my_vote_server.Session.State.{ready, Utterance, Settings, Session, is_running}
use my_vote_server.Session.Output.{call}
use my_vote_server.Session.Dispatch.{
  first_segment, update_segment, job_of, set_status, dispatch_segment, dispatch_next,
}
use my_vote_server.Session.Results.{translated, returns, session_of}
use my_vote_server.Session.Lifecycle.{segment_ids, detach, write_segment, rollback}
use my_vote_server.Session.Order.{IsOrderly}
use my_vote_server.Session.Histories.{
  Parts, writes, dispatches, Reach, here, next, Reach-IsOrderly, answer_to, result-outdated,
  rollback-result,
}

abbrev plain : Unicode
plain = record {
  is_space = λ c. c == b' ';
  is_alnum = λ c. false;
  is_decimal = λ c. false;
  is_alpha = λ c. false;
  is_mark = λ c. false;
}

abbrev limits : Settings
limits = record {
  max_source_chars = 100;
  max_session_chars = 1000;
  max_translation_chars = 1000;
  max_state_bytes = 4000;
  max_utterances = 4;
  max_segments = 8;
  max_pending_per_session = 2;
  max_buffer_age_ms = 5000;
  context_segments = 2;
  outgoing_queue_size = 16;
  translation_stability_count = 2;
  translation_commit_delay_ms = 700;
  translation_model = 1;
  translation_temperature = 0;
}

abbrev parts : Parts ℕ
parts = record {
  unicode = plain;
  settings = limits;
  manager = record { max_segments = 2; max_tokens = 100; entries = [] };
  glossary_for = λ text. [];
  tracking = record {
    new_tracker = 0;
    observe_event =
        λ e t. some (record { stable_char_end = length e.text; prefix_conflict = false }, t);
    commit_prefix = λ stop final t. some t;
    auto_name = λ k. 1000 + k;
  };
}

-- Two words were heard; the tracker is of no interest here.
abbrev heard : Utterance ℕ
heard = record {
  utterance_id = 7;
  tracker = 0;
  speaker_id = none;
  text = b'h' ∷ b'i' ∷ b' ' ∷ b'y' ∷ b'o' ∷ [];
  stable_end = 5;
  selected_end = 0;
  revision = 1;
  sequence = 1;
  final = false;
  pause_ms = none;
  buffer_since = 0;
  incomplete_reported = false;
}

abbrev new_session : Session ℕ
new_session = record {
  session_id = 1;
  source_language = 1;
  target_language = 2;
  temperature = none;
  closed = false;
  last_sequence = some 1;
  generation_id = 0;
  revision = 0;
  utterances = (7, heard) ∷ [];
  segments = [];
  auto_id = none;
  next_utterance = 0;
  next_segment = 0;
  active_segment = none;
  timers = [];
  queue = some [];
  calls = [];
}

abbrev first_word : SegmentCandidate
first_word = record {
  start = 0;
  stop = 2;
  text = b'h' ∷ b'i' ∷ [];
  complete = true;
  reason = "sentence";
  token_count = 1;
  strong_boundary = true;
}

abbrev written : Session ℕ
written = write_segment limits 10 heard first_word new_session

abbrev busy : Session ℕ
busy = dispatch_next limits parts.manager parts.glossary_for accepted 20 written

-- The first segment is with the scheduler.
busy-running : map (λ x. is_running x.status) busy.segments ≡ true ∷ []
unfolding write_segment dispatch_next first_segment dispatch_segment call update_segment set_status
busy-running = refl

history : Reach parts new_session busy
history = next (next here (writes 10 heard first_word)) (dispatches accepted 20)

Reach-IsOrderly_example : IsOrderly busy
Reach-IsOrderly_example = Reach-IsOrderly parts new_session busy refl refl history

abbrev first_job : TranslationJob
first_job =
    job_of limits parts.glossary_for parts.manager 20
      (record {
        segment_id = 1;
        utterance_id = 7;
        start = 0;
        stop = 2;
        source = b'h' ∷ b'i' ∷ [];
        source_revision = 1;
        speaker_id = none;
        sequence = 1;
        final_source = false;
        committer = record { stability_count = 2; delay_ms = 700; state = none; last_time = none };
        translation = [];
        committed = false;
        status = ready;
      })
      written

-- The job of the sample ends after the connection was lost, and the segment was handed over again.
abbrev again : Session ℕ
again = dispatch_next limits parts.manager parts.glossary_for accepted 40 (detach busy)

result-outdated_example :
    answer_to parts (λ k. 50 + k) accepted first_job (translated (b'y' ∷ b'o' ∷ [])) again
    ≡ returns again
unfolding job_of write_segment dispatch_next first_segment dispatch_segment call update_segment
    detach
result-outdated_example =
    result-outdated parts busy (detach busy) again (inl refl) (next here (dispatches accepted 40))
      (λ k. 50 + k) accepted first_job (translated (b'y' ∷ b'o' ∷ [])) (omega arith)

abbrev withdrawn : Session ℕ
withdrawn = rollback plain limits 0 busy

rollback-result_example :
    answer_to parts (λ k. 50 + k) accepted first_job (translated (b'y' ∷ b'o' ∷ [])) withdrawn
    ≡ returns withdrawn
unfolding job_of write_segment dispatch_next first_segment dispatch_segment call update_segment
    segment_ids set_status
rollback-result_example =
    rollback-result parts 0 busy withdrawn
      (Reach-IsOrderly parts new_session busy refl refl history) here (λ k. 50 + k) accepted
      first_job (translated (b'y' ∷ b'o' ∷ [])) refl

-- The sequence number of the event has been seen.
abbrev repeated : AsrEvent
repeated = record {
  session_id = none;
  sequence = 1;
  text = b'h' ∷ [];
  language = none;
  target_language = none;
  is_final = false;
  confidences = none;
  pause_ms = none;
  speaker_id = none;
  utterance_id = some 7;
}

ingest-refused_example :
    SameButName busy (session_of (ingest plain limits parts.tracking (λ k. k) repeated busy).1)
unfolding ingest refusal write_segment dispatch_next first_segment dispatch_segment call
ingest-refused_example =
    ingest-refused plain limits parts.tracking (λ k. k) repeated busy stale_sequence refl

-- A segmenter that finds the first word, and a policy that lets it pass.
abbrev first_words : Selecting
first_words = record {
  select = λ text stable start context. if start == 0 then some first_word else none;
  policy = record {
    stability_threshold = 1;
    min_stable_tokens = 1;
    min_segment_tokens = 1;
    target_segment_tokens = 1;
    max_latency_ms = 100;
    pause_threshold_ms = 100;
  };
}

select_segments-ends_example :
    is_some (
      select_segments plain limits first_words
        (λ k. k)
        (record { score = 5; stable_token_count = 2; prefix_conflict = false })
        heard
        new_session)
    ≡ true
select_segments-ends_example =
    select_segments-ends plain limits first_words (λ k. k)
      (record { score = 5; stable_token_count = 2; prefix_conflict = false }) heard new_session
