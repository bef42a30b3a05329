-- ===== src/Session/Results.antt =====
-- Results, commits and timers of app/session/state.py. `clock` gives the successive readings of the
-- clock that a handler makes.
use my_vote_server.Translation.Scheduler.{Outcome as Answer}
use my_vote_server.Draft.{ready as draft_ready}
use my_vote_server.Base.{
  ℕ, ◌+◌, Bool, true, false, not, ◌&&◌, ◌||◌, Option, none, some, List, [], ◌∷◌, ltb, ◌==◌,
  if◌then◌else◌, is_some, length, is_empty, Text, values,
}
use my_vote_server.Source.Text.{Unicode}
use my_vote_server.Context.{ContextManager, utf8_length}
use my_vote_server.Context.{ContextManager, utf8_length}
use my_vote_server.Draft.{DraftCommitter, ok, err, draft, propose, mark_committed}
use my_vote_server.Translation.Job.{TranslationJob}
use my_vote_server.Session.State.{
  complete, failed, Segment, Utterance, Settings, Failure, Code, session_limit, backend_errors,
  session_state, translation_update, translation_final, Session, is_ready, is_running,
}
use my_vote_server.Session.Output.{
  has_rest, emit_snapshot, emit_error, arm, arm_commit, translation_chars, state_bytes,
}
use my_vote_server.Session.Dispatch.{first_segment, update_segment, set_status, dispatch_next}

-- What the scheduler's callback brings: a translation, or an error.
pub data Reply : Type 0 where
  translated : Text → Reply
  failing : Failure → Reply

-- What a handler came to: the session, or the session when an exception left the handler.
pub data Handled (T : Type 0) : Type 0 where
  returns raises : Session T → Handled T

unfoldable pub session_of : {T : Type 0} → Handled T → Session T
session_of (returns s) = s
session_of (raises s) = s

-- `self._active_segment == segment_id`.
unfoldable pub is_active : Option ℕ → ℕ → Bool
is_active none sid = false
is_active (some k) sid = k == sid

unfoldable pub set_committer : DraftCommitter → Segment → Segment
set_committer c x = record x { committer = c }

unfoldable pub set_committed : Segment → Segment
set_committed x = record x { committed = true }

unfoldable pub set_translation : Text → Segment → Segment
set_translation text x = record x { translation = text; status = complete }

unfoldable pub with_segments : {T : Type 0} → List Segment → Session T → Session T
with_segments xs s = record s { segments = xs }

-- The segment with an identifier is changed.
unfoldable pub change : {T : Type 0} → ℕ → (Segment → Segment) → Session T → Session T
unfolding update_segment
change sid f s = record s { segments = update_segment sid f s.segments }

unfoldable pub next_revision : {T : Type 0} → Session T → Session T
next_revision s = record s { revision = s.revision + 1 }

module _ {T : Type 0} where
  -- The tests that discard a result.
  unfoldable pub is_outdated : TranslationJob → Segment → Session T → Bool
  unfolding is_active
  is_outdated job x s =
      s.closed
      || not (job.generation_id == s.generation_id)
      || not (x.source_revision == job.source_revision)
      || not (is_running x.status)
      || not (is_active s.active_segment x.segment_id)

  -- The translations and the texts that are kept, with a new one.
  unfoldable pub is_too_long : Settings → Text → Session T → Bool
  unfolding translation_chars state_bytes
  is_too_long settings text s =
      ltb settings.max_translation_chars (translation_chars s.segments + length text)
      || ltb settings.max_state_bytes (state_bytes s + utf8_length text)

  -- The decision timers of the utterances that have text left.
  unfoldable pub resume : Unicode → List (Utterance T) → Session T → Session T
  unfolding has_rest arm
  resume u [] s = s
  resume u (x ∷ xs) s =
      resume u xs (if has_rest u x && not x.incomplete_reported then arm x.utterance_id s else s)

  unfoldable pub arm_all : List (Utterance T) → Session T → Session T
  unfolding arm
  arm_all [] s = s
  arm_all (x ∷ xs) s = arm_all xs (arm x.utterance_id s)

module _ {T : Type 0} (u : Unicode) (settings : Settings) where
  -- `_commit`, on the segment that is given.
  unfoldable pub commit : ℕ → Segment → Session T → Handled T
  unfolding change set_committer set_committed next_revision emit_snapshot
  commit time x s =
      let (outcome, c) = mark_committed time x.committer in
      let s' = change x.segment_id (set_committer c) s in
      if x.committed then returns s else elim outcome [
        | err e ↦ raises s'
        | ok d ↦ returns (
            emit_snapshot u settings translation_final
              (next_revision (change x.segment_id set_committed s')))
      ]

  -- A translation that is ready is committed, another one gets a timer: `x` has the committer
  -- that `ready` has looked at.
  unfoldable pub settle : ℕ → Bool → Segment → Session T → Handled T
  unfolding commit arm_commit
  settle time is_ready x s =
      if is_ready then commit time x s else returns (arm_commit x.segment_id s)

  -- The branch of `_result` for a translation that is kept.
  unfoldable pub keep : (ℕ → ℕ) → Text → Segment → Session T → Handled T
  unfolding change set_translation set_committer next_revision emit_snapshot settle
  keep clock text x s =
      let x' = set_translation text x in
      let made : Session T = change x.segment_id (set_translation text) s in
      let proposal = draft x.start x.stop x.source text x.source_revision x.final_source in
      let (outcome, c) = propose u (clock 0) proposal x.committer in
      let stored = change x.segment_id (set_committer c) made in
      let (is_ready, c') = draft_ready (clock 1) c in
      elim outcome [
        | err e ↦ raises stored
        | ok d ↦ settle (clock 2) is_ready (set_committer c' x') (
            change x.segment_id (set_committer c')
              (emit_snapshot u settings translation_update (next_revision stored)))
      ]

  unfoldable pub fail : Code → Segment → Session T → Session T
  unfolding change set_status emit_error
  fail code x s = emit_error settings code (change x.segment_id (set_status failed) s)

  -- The branches of `_result`, once the active segment is given up.
  unfoldable pub conclude : (ℕ → ℕ) → Reply → Segment → Session T → Handled T
  unfolding fail keep is_too_long
  conclude clock (failing code) x s = returns (fail (backend_errors code) x s)
  conclude clock (translated text) x s =
      if is_too_long settings text s then returns (fail session_limit x s) else keep clock text x s

  module _ (manager : ContextManager) (glossary_for : Text → List (Text × Text)) where
    unfoldable pub continue : Answer → ℕ → Handled T → Handled T
    unfolding resume dispatch_next
    continue outcome time (raises s) = raises s
    continue outcome time (returns s) = returns (
        dispatch_next settings manager glossary_for outcome time (resume u (values s.utterances) s))

    -- `_result`.
    unfoldable pub result : (ℕ → ℕ) → Answer → TranslationJob → Reply → Session T → Handled T
    unfolding first_segment is_outdated conclude continue
    result clock outcome job reply s =
        elim (first_segment (λ x. x.segment_id == job.segment_id) s.segments) [
          | none ↦ returns s
          | some x ↦
              if is_outdated job x s
              then returns s
              else continue outcome (clock 3)
                  (conclude clock reply x (record s { active_segment = none }))
        ]

  -- The timer of `_arm_commit`, when it fires.
  unfoldable pub commit_due : (ℕ → ℕ) → ℕ → ℕ → Session T → Handled T
  unfolding first_segment change set_committer commit
  commit_due clock generation sid s =
      if s.closed || not (generation == s.generation_id)
      then returns s
      else elim (first_segment (λ x. x.segment_id == sid) s.segments) [
        | none ↦ returns s
        | some x ↦
            let (is_ready, c) = draft_ready (clock 0) x.committer in
            let s' = change sid (set_committer c) s in
            if is_ready then commit (clock 1) (set_committer c x) s' else returns s'
      ]

  -- What `attach` does with the retained segments: the translations that are ready are committed,
  -- the other drafts get their timers.
  unfoldable pub revisit : (ℕ → ℕ) → List Segment → Session T → Handled T
  unfolding change set_committer settle
  revisit clock [] s = returns s
  revisit clock (x ∷ xs) s =
      let (is_ready, c) = draft_ready (clock 0) x.committer in
      let seen = change x.segment_id (set_committer c) s in
      let settled =
        if is_empty x.translation || x.committed
        then returns s
        else settle (clock 1) is_ready (set_committer c x) seen in
      elim settled [ returns s' ↦ revisit (λ k. clock (k + 2)) xs s' | raises s' ↦ raises s' ]

  module _ (manager : ContextManager) (glossary_for : Text → List (Text × Text)) where
    -- The rest of `attach`, once the session is known to be free.
    unfoldable pub connect : (ℕ → ℕ) → Answer → Session T → Handled T
    unfolding emit_snapshot arm_all revisit dispatch_next
    connect clock outcome s =
        let connected = emit_snapshot u settings session_state (record s { queue = some [] }) in
        let armed = arm_all (values s.utterances) connected in
        elim (revisit (λ k. clock (k + 1)) s.segments armed) [
          | raises s' ↦ raises s'
          | returns s' ↦ returns (dispatch_next settings manager glossary_for outcome (clock 0) s')
        ]

    -- `attach`; `none` is its ValueError.
    unfoldable pub attach : (ℕ → ℕ) → Answer → Session T → Option (Handled T)
    unfolding connect
    attach clock outcome s =
        if is_some s.queue || s.closed then none else some (connect clock outcome s)
