-- ===== src/Session/Ingest.antt =====
-- `ingest` of app/session/state.py: a hypothesis of the recogniser is taken in.
use my_vote_server.Draft.{ready as draft_ready}
use my_vote_server.Base.{
  ℕ, ◌+◌, ◌-◌, Bool, true, false, not, ◌&&◌, ◌||◌, Option, none, some, List, [], ◌∷◌, map, ltb, leb,
  ◌==◌, if◌then◌else◌, is_some, get_or_else, length, is_empty, get_elem?, filter, Text, text_eq,
  get, put, values,
}
use my_vote_server.Source.Text.{Unicode}
use my_vote_server.Source.Revision.{RevisionPlan, plan_revision}
use my_vote_server.Context.{utf8_length}
use my_vote_server.Session.State.{
  Status, ready, running, complete, failed, Segment, Utterance, Settings,
  source_reconciliation_pending, session_state, Session, is_ready,
}
use my_vote_server.Session.Output.{emit_snapshot, emit_error, arm, state_bytes}
use my_vote_server.Session.Dispatch.{first_segment}
use my_vote_server.Session.Results.{
  Handled, returns, raises, set_committer, change, next_revision, commit,
}
use my_vote_server.Session.Lifecycle.{rollback}

-- app/core/models.py, ASREvent, with the confidences that `ingest` makes of its tokens.
pub record AsrEvent : Type 0 where
  pub session_id : Option ℕ
  pub sequence : ℕ
  pub text : Text
  pub language : Option ℕ
  pub target_language : Option ℕ
  pub is_final : Bool
  pub confidences : Option (List (Option ℕ))
  pub pause_ms : Option ℕ
  pub speaker_id : Option Text
  pub utterance_id : Option ℕ

-- What `ingest` reads of a StabilityResult.
pub record Stability : Type 0 where
  pub stable_char_end : ℕ
  pub prefix_conflict : Bool

-- The tracker of app/streaming/stability.py as `ingest` uses it; `none` is its ValueError.
-- `auto_name` is the identifier that is made of a number, "auto:1" and so on.
pub record Tracking (T : Type 0) : Type 0 where
  pub new_tracker : T
  pub observe_event : AsrEvent → T → Option (Stability × T)
  pub commit_prefix : ℕ → Bool → T → Option T
  pub auto_name : ℕ → ℕ

pub data Refusal : Type 0 where
  session_mismatch stale_sequence language_mismatch source_limit : Refusal
  speaker_mismatch final_requires_final session_limit : Refusal

-- `value not in (None, own)`.
unfoldable pub differs : Option ℕ → ℕ → Bool
differs none own = false
differs (some k) own = not (k == own)

unfoldable pub is_stale : ℕ → Option ℕ → Bool
is_stale sequence none = false
is_stale sequence (some last) = leb sequence last

unfoldable pub same_speaker : Option Text → Option Text → Bool
same_speaker none none = true
same_speaker none (some b) = false
same_speaker (some a) none = false
same_speaker (some a) (some b) = text_eq a b

unfoldable pub text_chars : {T : Type 0} → List (Utterance T) → ℕ
text_chars [] = 0
text_chars (x ∷ xs) = length x.text + text_chars xs

-- The place of the segment with an identifier.
unfoldable pub index_of : ℕ → List Segment → ℕ
index_of sid [] = 0
index_of sid (x ∷ xs) = let rest = index_of sid xs in if x.segment_id == sid then 0 else rest + 1

unfoldable pub retry_status : Status → Status
retry_status failed = ready
retry_status ready = ready
retry_status running = running
retry_status complete = complete

unfoldable pub retry : Segment → Segment
unfolding retry_status
retry x = record x { status = retry_status x.status }

unfoldable pub and_then : {T : Type 0} → Handled T → (Session T → Handled T) → Handled T
and_then (returns s) f = f s
and_then (raises s) f = raises s

module _ {T : Type 0} (settings : Settings) where
  -- The checks in front of the choice of the utterance.
  unfoldable pub refusal : AsrEvent → Session T → Option Refusal
  unfolding differs is_stale
  refusal e s =
      if differs e.session_id s.session_id
      then some session_mismatch
      else if is_stale e.sequence s.last_sequence
      then some stale_sequence
      else if differs e.language s.source_language || differs e.target_language s.target_language
      then some language_mismatch
      else if ltb settings.max_source_chars (length e.text)
      then some source_limit
      else none

  -- Whether the texts that would be kept, without the old one of the utterance, exceed a limit.
  unfoldable pub exceeds : AsrEvent → Text → Bool → Session T → Bool
  unfolding text_chars state_bytes
  exceeds e old is_new s =
      let retained = text_chars (values s.utterances) - length old in
      let retained_bytes = state_bytes s - utf8_length old in
      ltb settings.max_session_chars (retained + length e.text)
      || ltb settings.max_state_bytes (retained_bytes + utf8_length e.text)
      || is_new && leb settings.max_utterances (length s.utterances)

  -- The checks once the utterance is known.
  unfoldable pub refusal_of : AsrEvent → Option (Utterance T) → Session T → Option Refusal
  unfolding exceeds same_speaker
  refusal_of e none s = if exceeds e [] true s then some session_limit else none
  refusal_of e (some x) s =
      if not (same_speaker x.speaker_id e.speaker_id)
      then some speaker_mismatch
      else if x.final && not e.is_final
      then some final_requires_final
      else if exceeds e x.text false s
      then some session_limit
      else none

module _ {T : Type 0} (u : Unicode) (settings : Settings) (tracking : Tracking T) where
  open tracking use {new_tracker, observe_event, commit_prefix, auto_name}

  unfoldable pub name_next : Session T → ℕ × Session T
  name_next s =
      (auto_name (s.next_utterance + 1), record s { next_utterance = s.next_utterance + 1 })

  -- The identifier of the utterance: the event's, or that of the last automatic one unless it is
  -- final, or a new one.
  unfoldable pub name_utterance : AsrEvent → Session T → ℕ × Session T
  unfolding name_next get
  name_utterance e s = elim e.utterance_id [
    | some uid ↦ (uid, s)
    | none ↦ elim s.auto_id [
      | none ↦ name_next s
      | some uid ↦ elim (get uid s.utterances) [
        | none ↦ (uid, s)
        | some x ↦ if x.final then name_next s else (uid, s)
      ]
    ]
  ]

  unfoldable pub new_utterance : ℕ → ℕ → AsrEvent → Utterance T
  new_utterance time uid e = record {
    utterance_id = uid;
    tracker = new_tracker;
    speaker_id = e.speaker_id;
    text = [];
    stable_end = 0;
    selected_end = 0;
    revision = 0;
    sequence = 0;
    final = false;
    pause_ms = none;
    buffer_since = time;
    incomplete_reported = false;
  }

  unfoldable pub with_utterance : ℕ → Utterance T → Session T → Session T
  unfolding put
  with_utterance uid x s = record s { utterances = put uid x s.utterances }

  -- The event is accepted: the utterance is there, and the sequence number is the last one.
  unfoldable pub accept : ℕ → AsrEvent → Session T → Session T
  accept uid e s = record s {
    auto_id = if is_some e.utterance_id then s.auto_id else some uid;
    last_sequence = some e.sequence;
  }

  -- The segments of the utterance from the first touched one on are withdrawn, with all behind it.
  unfoldable pub withdraw : RevisionPlan → List Segment → Session T → Session T
  unfolding index_of rollback
  withdraw plan old s = elim (get_elem? old plan.rollback_segment_index) [
    | none ↦ s
    | some first ↦ rollback u settings (index_of first.segment_id s.segments) s
  ]

  -- The utterance with the new hypothesis.
  unfoldable pub reheard : AsrEvent → Stability → Utterance T → Utterance T
  reheard e stability x =
      let same = text_eq e.text x.text in
      record x {
        revision = if same then x.revision else x.revision + 1;
        incomplete_reported = if same then x.incomplete_reported else false;
        text = e.text;
        final = e.is_final;
        sequence = e.sequence;
        pause_ms = e.pause_ms;
        stable_end = stability.stable_char_end;
      }

  -- A final hypothesis commits a finished draft that is ready, and a failed segment is tried again.
  unfoldable pub confirm : (ℕ → ℕ) → Segment → Session T → Handled T
  unfolding change set_committer commit
  confirm clock x s =
      let (is_ready, c) = draft_ready (clock 0) x.committer in
      let s' = change x.segment_id (set_committer c) s in
      if is_empty x.translation || x.committed
      then returns s
      else if is_ready
      then commit u settings (clock 1) (set_committer c x) s'
      else returns s'

  unfoldable pub confirm_all : (ℕ → ℕ) → List Segment → Session T → Handled T
  unfolding first_segment confirm and_then change retry
  confirm_all clock [] s = returns s
  confirm_all clock (y ∷ ys) s =
      elim (first_segment (λ x. x.segment_id == y.segment_id) s.segments) [
        | none ↦ confirm_all (λ k. clock (k + 2)) ys s
        | some x ↦
            and_then (confirm clock x s)
              (λ t. confirm_all (λ k. clock (k + 2)) ys (change x.segment_id retry t))
      ]

  -- The end of `ingest`: the session is shown, and the decision timer set.
  unfoldable pub announce : (ℕ → ℕ) → ℕ → AsrEvent → List Segment → Session T → Handled T
  unfolding next_revision emit_snapshot arm confirm_all
  announce clock uid e old s =
      let shown_one = arm uid (emit_snapshot u settings session_state (next_revision s)) in
      if e.is_final then confirm_all clock old shown_one else returns shown_one

  -- The utterance as it stands after the withdrawal takes the hypothesis in.
  unfoldable pub adopt : (ℕ → ℕ) → ℕ → AsrEvent → Stability → List Segment → Session T → Handled T
  unfolding get reheard with_utterance announce
  adopt clock uid e stability old s = elim (get uid s.utterances) [
    | none ↦ raises s
    | some x ↦
        let x' = reheard e stability x in
        elim (commit_prefix x'.stable_end e.is_final x'.tracker) [
          | none ↦ raises (with_utterance uid x' s)
          | some t ↦ announce clock uid e old (with_utterance uid (record x' { tracker = t }) s)
        ]
  ]

  -- The plan of app/streaming/revision.py is carried out.
  unfoldable pub revise : (ℕ → ℕ) → ℕ → AsrEvent → Stability → Utterance T → Session T → Handled T
  unfolding plan_revision withdraw adopt
  revise clock uid e stability x s =
      let old = filter (λ y. y.utterance_id == uid) s.segments in
      let spans = map (λ y. record { start = y.start; stop = y.stop }) old in
      elim (plan_revision u x.text e.text spans) [
        | none ↦ raises s
        | some plan ↦ adopt clock uid e stability old (withdraw plan old s)
      ]

  -- `ingest` once the event is accepted.
  unfoldable pub hear : (ℕ → ℕ) → ℕ → AsrEvent → Utterance T → Session T → Handled T
  unfolding with_utterance emit_error revise
  hear clock uid e x s = elim (observe_event e x.tracker) [
    | none ↦ raises (with_utterance uid x s)
    | some (stability, t) ↦
        let seen = with_utterance uid (record x { tracker = t }) s in
        if stability.prefix_conflict && not e.is_final
        then returns (emit_error settings source_reconciliation_pending seen)
        else revise clock uid e stability x seen
  ]

  -- `ingest`. What is refused may still have used up an automatic name.
  unfoldable pub ingest : (ℕ → ℕ) → AsrEvent → Session T → Option Refusal × Handled T
  unfolding refusal name_utterance refusal_of accept new_utterance hear get
  ingest clock e s = elim (refusal settings e s) [
    | some r ↦ (some r, raises s)
    | none ↦
        let (uid, s') = name_utterance e s in
        let old = get uid s'.utterances in
        elim (refusal_of settings e old s') [
          | some r ↦ (some r, raises s')
          | none ↦
              let x = get_or_else old (new_utterance (clock 0) uid e) in
              (none, hear (λ k. clock (k + 1)) uid e x (accept uid e s'))
        ]
  ]
