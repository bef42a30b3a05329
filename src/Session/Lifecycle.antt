-- ===== src/Session/Lifecycle.antt =====
-- Leaving, clearing and ending a session, and withdrawing segments: app/session/state.py.
use my_vote_server.Policy.{SegmentCandidate}
use my_vote_server.Base.{
  ℕ, ◌+◌, min, true, false, Option, none, some, List, [], ◌∷◌, ◌++◌, map, if◌then◌else◌, take, drop,
  slice, contains, get, put,
}
use my_vote_server.Source.Text.{Unicode}
use my_vote_server.Session.State.{
  ready, Segment, Utterance, Settings, session_state, translation_update, hang_up,
  invalidate_segments, cancel_all_jobs, Session, is_running,
}
use my_vote_server.Session.Output.{emit_snapshot, arm, cancel_timers, call}
use my_vote_server.Session.Dispatch.{set_status}
use my_vote_server.Session.Results.{next_revision}

-- `detach` makes a running segment ready again.
unfoldable pub requeue : Segment → Segment
unfolding set_status
requeue x = if is_running x.status then set_status ready x else x

unfoldable pub segment_ids : List Segment → List ℕ
segment_ids = map (λ x. x.segment_id)

-- `if self._active_segment in identifiers`.
unfoldable pub release : List ℕ → Option ℕ → Option ℕ
release ids none = none
release ids (some k) = if contains k ids then none else some k

module _ {T : Type 0} where
  -- `detach`.
  unfoldable pub detach : Session T → Session T
  unfolding cancel_timers call requeue
  detach s =
      let left : Session T = record s { queue = none; generation_id = s.generation_id + 1 } in
      let cancelled = call cancel_all_jobs (cancel_timers left) in
      record cancelled { segments = map requeue s.segments; active_segment = none }

  -- `close`: the queue is emptied, and the connection ended.
  unfoldable pub close : Session T → Session T
  unfolding cancel_timers call
  close s =
      let closed : Session T = record s { closed = true; generation_id = s.generation_id + 1 } in
      let cancelled = call cancel_all_jobs (cancel_timers closed) in
      elim s.queue [
        | none ↦ cancelled
        | some events ↦ record cancelled { queue = some (hang_up ∷ []) }
      ]

  -- The utterance of a withdrawn segment, which is there for each segment, may be selected from the segment's start on again.
  unfoldable pub reopen : Segment → Session T → Session T
  unfolding get put arm
  reopen x s = elim (get x.utterance_id s.utterances) [
    | none ↦ s
    | some u ↦
        let u' : Utterance T = record u {
          selected_end = min u.selected_end x.start;
          incomplete_reported = false;
        } in
        arm x.utterance_id (record s { utterances = put x.utterance_id u' s.utterances })
  ]

  unfoldable pub reopen_all : List Segment → Session T → Session T
  unfolding reopen
  reopen_all [] s = s
  reopen_all (x ∷ xs) s = reopen_all xs (reopen x s)

  -- The part of `_select_utterance` that writes a segment: the text of the utterance between the
  -- two places of the candidate that the policy chose.
  unfoldable pub write_segment :
      Settings → ℕ → Utterance T → SegmentCandidate → Session T → Session T
  unfolding put
  write_segment settings time u chosen s =
      let segment : Segment = record {
        segment_id = s.next_segment + 1;
        utterance_id = u.utterance_id;
        start = chosen.start;
        stop = chosen.stop;
        source = slice chosen.start chosen.stop u.text;
        source_revision = u.revision;
        speaker_id = u.speaker_id;
        sequence = u.sequence;
        final_source = u.final;
        committer = record {
          stability_count = settings.translation_stability_count;
          delay_ms = settings.translation_commit_delay_ms;
          state = none;
          last_time = none;
        };
        translation = [];
        committed = false;
        status = ready;
      } in
      let u' : Utterance T = record u { selected_end = chosen.stop; buffer_since = time } in
      record s {
        next_segment = s.next_segment + 1;
        segments = s.segments ++ segment ∷ [];
        utterances = put u.utterance_id u' s.utterances;
      }

module _ {T : Type 0} (u : Unicode) (settings : Settings) where
  -- `reset`.
  unfoldable pub reset : Session T → Session T
  unfolding cancel_timers call emit_snapshot
  reset s =
      let cleared : Session T = record s {
        generation_id = s.generation_id + 1;
        revision = s.revision + 1;
        utterances = [];
        segments = [];
        auto_id = none;
        active_segment = none;
      } in
      emit_snapshot u settings session_state (call cancel_all_jobs (cancel_timers cleared))

  -- `_rollback`: the segments from an index on are withdrawn.
  unfoldable pub rollback : ℕ → Session T → Session T
  unfolding segment_ids reopen_all release call next_revision emit_snapshot
  rollback index s =
      let affected = drop index s.segments in
      let cut = reopen_all affected (record s { segments = take index s.segments }) in
      let released : Session T = record cut {
        active_segment = release (segment_ids affected) cut.active_segment;
      } in
      emit_snapshot u settings translation_update
        (next_revision (call (invalidate_segments (segment_ids affected)) released))
