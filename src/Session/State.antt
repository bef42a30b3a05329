-- ===== src/Session/State.antt =====
-- The data of app/session/state.py. A session holds trackers of any type: what follows keeps them.
-- The identifier of a segment is its number: s1, s2 and so on. Time stands in picoseconds.
use my_vote_server.Base.{ℕ, Bool, true, false, Option, List, Text, Dict}
use my_vote_server.Draft.{DraftCommitter}
use my_vote_server.Translation.Job.{TranslationJob}

pub data Status : Type 0 where
  ready running complete failed : Status

pub record Segment : Type 0 where
  pub segment_id : ℕ
  pub utterance_id : ℕ
  pub start : ℕ
  pub stop : ℕ
  pub source : Text
  pub source_revision : ℕ
  pub speaker_id : Option Text
  pub sequence : ℕ
  pub final_source : Bool
  pub committer : DraftCommitter
  pub translation : Text
  pub committed : Bool
  pub status : Status

-- An utterance, with a tracker of any kind.
pub record Utterance (Tracker : Type 0) : Type 0 where
  pub utterance_id : ℕ
  pub tracker : Tracker
  pub speaker_id : Option Text
  pub text : Text
  pub stable_end : ℕ
  pub selected_end : ℕ
  pub revision : ℕ
  pub sequence : ℕ
  pub final : Bool
  pub pause_ms : Option ℕ
  pub buffer_since : ℕ
  pub incomplete_reported : Bool

-- The settings that the session reads.
pub record Settings : Type 0 where
  pub max_source_chars : ℕ
  pub max_session_chars : ℕ
  pub max_translation_chars : ℕ
  pub max_state_bytes : ℕ
  pub max_utterances : ℕ
  pub max_segments : ℕ
  pub max_pending_per_session : ℕ
  pub max_buffer_age_ms : ℕ
  pub context_segments : ℕ
  pub outgoing_queue_size : ℕ
  pub translation_stability_count : ℕ
  pub translation_commit_delay_ms : ℕ
  pub translation_model : ℕ
  pub translation_temperature : ℕ

-- The codes of the TranslationErrors that BACKEND_ERRORS lists, and the others.
pub data Failure : Type 0 where
  timeout transport_error upstream_http_error rate_limited invalid_response : Failure
  incomplete_response response_too_large output_too_large input_too_large other : Failure

pub data Code : Type 0 where
  translation_timeout backend_unavailable backend_rate_limited backend_invalid_response : Code
  backend_incomplete_response backend_response_limit source_limit translation_error : Code
  session_limit queue_overflow source_reconciliation_pending incomplete_source : Code

-- BACKEND_ERRORS, with TRANSLATION_ERROR for what it does not list.
pub backend_errors : Failure → Code
backend_errors timeout = translation_timeout
backend_errors transport_error = backend_unavailable
backend_errors upstream_http_error = backend_unavailable
backend_errors rate_limited = backend_rate_limited
backend_errors invalid_response = backend_invalid_response
backend_errors incomplete_response = backend_incomplete_response
backend_errors response_too_large = backend_response_limit
backend_errors output_too_large = backend_response_limit
backend_errors input_too_large = source_limit
backend_errors other = translation_error

pub data Kind : Type 0 where
  session_state translation_update translation_final : Kind

-- What `snapshot` shows of a session.
pub record Snapshot : Type 0 where
  pub kind : Kind
  pub session_id : ℕ
  pub generation_id : ℕ
  pub revision : ℕ
  pub last_sequence : Option ℕ
  pub source_language : ℕ
  pub target_language : ℕ
  pub committed_source : Text
  pub unstable_source : Text
  pub committed : Text
  pub draft : Text
  pub full_text : Text
  pub final : Bool
  pub segments : List Segment

-- What is put on the queue of the connection; `hang_up` is the None that ends it.
pub data Event : Type 0 where
  shown : Snapshot → Event
  error : Code → Option ℕ → Event
  hang_up : Event

pub data TimerKey : Type 0 where
  decision : ℕ → TimerKey
  commitment : ℕ → TimerKey

-- A timer that is set, and the generation that it was set in.
pub record Timer : Type 0 where
  pub key : TimerKey
  pub generation : ℕ

-- The calls that the session makes of the scheduler, newest first.
pub data Call : Type 0 where
  submit_job : TranslationJob → Call
  invalidate_segments : List ℕ → Call
  cancel_all_jobs : Call

pub record Session (Tracker : Type 0) : Type 0 where
  pub session_id : ℕ
  pub source_language : ℕ
  pub target_language : ℕ
  pub temperature : Option ℕ
  pub closed : Bool
  pub last_sequence : Option ℕ
  pub generation_id : ℕ
  pub revision : ℕ
  pub utterances : Dict (Utterance Tracker)
  pub segments : List Segment
  pub auto_id : Option ℕ
  pub next_utterance : ℕ
  pub next_segment : ℕ
  pub active_segment : Option ℕ
  pub timers : List Timer
  pub queue : Option (List Event)
  pub calls : List Call

abbrev pub is_ready : Status → Bool
is_ready ready = true
is_ready running = false
is_ready complete = false
is_ready failed = false

abbrev pub is_running : Status → Bool
is_running running = true
is_running ready = false
is_running complete = false
is_running failed = false

abbrev pub is_complete : Status → Bool
is_complete complete = true
is_complete ready = false
is_complete running = false
is_complete failed = false
