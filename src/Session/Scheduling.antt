-- ===== src/Session/Scheduling.antt =====
-- Handing over segments, taking results and connecting keep the order of a session:
-- app/session/state.py.
use my_vote_server.Translation.Job.{TranslationJob}
use my_vote_server.Base.{
  ℕ, ◌+◌, ◌≡◌, refl, subst, true, false, not, ◌||◌, Option, none, some, List, [], ◌∷◌, arith, ◌==◌,
  if◌then◌else◌, if_ind, is_some, is_empty, All, Text, contains, values,
}
use my_vote_server.Source.Text.{Unicode}
use my_vote_server.Context.{ContextManager}
use my_vote_server.Translation.Scheduler.{
  Outcome as Answer, accepted, refused, scheduler_closed, stale_revision, queue_full,
}
use my_vote_server.Draft.{ready as draft_ready}
use my_vote_server.Session.State.{
  running, failed, Segment, Settings, Code, session_limit, queue_overflow, backend_errors,
  session_state, shown, error, submit_job, Session, is_ready, is_running,
}
use my_vote_server.Session.Output.{snapshot, emit_snapshot, emit_error, call}
use my_vote_server.Session.Dispatch.{
  first_segment, job_of, set_status, dispatch_segment, dispatch_next,
}
use my_vote_server.Session.Results.{
  Reply, translated, failing, Handled, returns, raises, session_of, is_active, set_committer,
  set_translation, change, is_outdated, is_too_long, resume, arm_all, settle, fail, conclude,
  continue, result, revisit, connect, attach,
}
use my_vote_server.Session.Lifecycle.{segment_ids}
use my_vote_server.Session.Steady.{
  Follows, Steady, IsSame, segment_ids-update, same-Steady, Steady-trans, emit-Steady, arm-Steady,
  resume-Steady, arm_all-Steady,
}
use my_vote_server.Session.Kept.{committer-Steady, settle-Steady, keep-Steady}
use my_vote_server.Session.Order.{first_segment_listed, update-stops, update-starts}
use my_vote_server.Session.Handling.{Follow, Steady-Follow, Follow-refl, Follow-trans, same-Follow}

module _ {T : Type 0} (settings : Settings) (manager : ContextManager)
    (glossary_for : Text → List (Text × Text)) where
  dispatch_segment-Follow :
      (answer : Answer) (time : ℕ) (x : Segment) (s : Session T)
      → s.active_segment ≡ none
      → contains x.segment_id (segment_ids s.segments) ≡ true
      → Follow s (dispatch_segment settings manager glossary_for answer time x s)
  unfolding dispatch_segment call emit_error is_active IsSame set_status
  dispatch_segment-Follow accepted time x s idle listed =
      same-Follow s _ (segment_ids-update x.segment_id (set_status running) s.segments (λ y. refl))
        refl (omega arith)
        (λ o. (
          update-starts x.segment_id s.segments
              (subst (λ a. All (Follows a) s.segments) idle o.follows),
          λ k h. subst (λ j. contains j (segment_ids s.segments) ≡ true) (ground arith) listed,
        ))
  dispatch_segment-Follow (refused queue_full) time x s idle listed =
      let asked = call (submit_job (job_of settings glossary_for manager time x s)) s in
      Steady-Follow (
        Steady-trans (same-Steady s asked refl refl refl refl) (
          Steady-trans (emit-Steady settings (error queue_overflow s.last_sequence) asked)
            (arm-Steady x.utterance_id (emit_error settings queue_overflow asked))))
  dispatch_segment-Follow (refused scheduler_closed) time x s idle listed =
      Steady-Follow (same-Steady s _ refl refl refl refl)
  dispatch_segment-Follow (refused stale_revision) time x s idle listed =
      Steady-Follow (same-Steady s _ refl refl refl refl)

  pub dispatch_next-Follow :
      (answer : Answer) (time : ℕ) (s : Session T)
      → Follow s (dispatch_next settings manager glossary_for answer time s)
  unfolding dispatch_next
  dispatch_next-Follow answer time s =
      if_ind (Follow s) (s.closed || not (is_some s.queue) || is_some s.active_segment) _ _
        (λ e. Follow-refl s) (λ e. found e (first_segment (λ x. is_ready x.status) s.segments) refl)
    where
      found :
          (s.closed || not (is_some s.queue) || is_some s.active_segment) ≡ false
          → (o : Option Segment) → first_segment (λ x. is_ready x.status) s.segments ≡ o
          → Follow s (elim o [
            | none ↦ s
            | some x ↦ dispatch_segment settings manager glossary_for answer time x s
          ])
      found e none q = Follow-refl s
      found e (some x) q =
          dispatch_segment-Follow answer time x s (ground arith)
            (first_segment_listed (λ x. is_ready x.status) s.segments x q)

is_active_lem : (a : Option ℕ) (k : ℕ) → is_active a k ≡ true → a ≡ some k
unfolding is_active
is_active_lem none k h = ground arith
is_active_lem (some j) k h = ground arith

module _ {T : Type 0} (u : Unicode) (settings : Settings) where
  revisit-Steady :
      (clock : ℕ → ℕ) (xs : List Segment) (s : Session T)
      → Steady s (session_of (revisit u settings clock xs s))
  unfolding revisit session_of
  revisit-Steady clock [] s = same-Steady s s refl refl refl refl
  revisit-Steady clock (x ∷ xs) s =
      and_then settled visited (λ t. revisit-Steady (λ k. clock (k + 2)) xs t)
    where
      seen : Session T
      seen = change x.segment_id (set_committer (draft_ready (clock 0) x.committer).1) s

      settled : Handled T
      settled =
          if is_empty x.translation || x.committed
          then returns s
          else settle u settings (clock 1) (draft_ready (clock 0) x.committer).0
              (set_committer (draft_ready (clock 0) x.committer).1 x) seen

      visited : Steady s (session_of settled)
      visited =
          if_ind (λ h. Steady s (session_of h)) (is_empty x.translation || x.committed) _ _
            (λ e. same-Steady s s refl refl refl refl)
            (λ e.
              Steady-trans
                (committer-Steady u settings x.segment_id (draft_ready (clock 0) x.committer).1 s)
                (settle-Steady u settings (clock 1) (draft_ready (clock 0) x.committer).0
                  (set_committer (draft_ready (clock 0) x.committer).1 x) seen))

      and_then :
          (h : Handled T)
          → Steady s (session_of h)
          → ((t : Session T) → Steady t (session_of (revisit u settings (λ k. clock (k + 2)) xs t)))
          → Steady s (
              session_of (elim h [
                | returns s' ↦ revisit u settings (λ k. clock (k + 2)) xs s'
                | raises s' ↦ raises s'
              ]))
      and_then (returns t) p later = Steady-trans p (later t)
      and_then (raises t) p later = p

  module _ (manager : ContextManager) (glossary_for : Text → List (Text × Text)) where
    continue-Follow :
        (answer : Answer) (time : ℕ) (s : Session T) (h : Handled T)
        → Follow s (session_of h)
        → Follow s (session_of (continue u settings manager glossary_for answer time h))
    unfolding continue session_of
    continue-Follow answer time s (raises t) p = p
    continue-Follow answer time s (returns t) p = Follow-trans p (
        Follow-trans (Steady-Follow (resume-Steady u (values t.utterances) t)) (
          dispatch_next-Follow settings manager glossary_for answer time
            (resume u (values t.utterances) t)))

    connect-Follow :
        (clock : ℕ → ℕ) (answer : Answer) (s : Session T)
        → Follow s (session_of (connect u settings manager glossary_for clock answer s))
    unfolding connect session_of emit_snapshot
    connect-Follow clock answer s =
        next_one (revisit u settings (λ k. clock (k + 1)) s.segments armed) visited
      where
        open_queue : Session T
        open_queue = record s { queue = some [] }

        armed : Session T
        armed = arm_all (values s.utterances) (emit_snapshot u settings session_state open_queue)

        visited : Steady s (session_of (revisit u settings (λ k. clock (k + 1)) s.segments armed))
        visited = Steady-trans (same-Steady s open_queue refl refl refl refl) (
            Steady-trans
              (emit-Steady settings (shown (snapshot u session_state open_queue)) open_queue)
              (Steady-trans
                (arm_all-Steady (values s.utterances)
                  (emit_snapshot u settings session_state open_queue))
                (revisit-Steady (λ k. clock (k + 1)) s.segments armed)))

        next_one :
            (r : Handled T)
            → Steady s (session_of r)
            → Follow s (
                session_of (elim r [
                  | raises s' ↦ raises s'
                  | returns s' ↦
                      returns (dispatch_next settings manager glossary_for answer (clock 0) s')
                ]))
        next_one (raises t) p = Steady-Follow p
        next_one (returns t) p =
            Follow-trans (Steady-Follow p)
              (dispatch_next-Follow settings manager glossary_for answer (clock 0) t)

    pub attach-Follow :
        (clock : ℕ → ℕ) (answer : Answer) (s : Session T) (h : Handled T)
        → attach u settings manager glossary_for clock answer s ≡ some h
        → Follow s (session_of h)
    unfolding attach
    attach-Follow clock answer s h e =
        subst (λ r. Follow s (session_of r))
          {x = connect u settings manager glossary_for clock answer s} {y = h} (ground arith)
          (connect-Follow clock answer s)

    -- The active segment stops, and steady work follows.
    stopped-Follow :
        (x : Segment) (f : Segment → Segment) (s t : Session T)
        → s.active_segment ≡ some x.segment_id
        → IsSame f
        → ((y : Segment) → is_running (f y).status ≡ false)
        → Steady (change x.segment_id f (record s { active_segment = none })) t
        → Follow s t
    unfolding change is_active
    stopped-Follow x f s t active same stops p =
        Follow-trans
          (same-Follow s (change x.segment_id f (record s { active_segment = none }))
            (segment_ids-update x.segment_id f s.segments same) refl (omega arith)
            (λ o. (
              update-stops x.segment_id f s.segments same stops
                  (subst (λ a. All (Follows a) s.segments) active o.follows),
              λ k h. ground arith,
            )))
          (Steady-Follow p)

    fail-Follow :
        (c : Code) (x : Segment) (s : Session T)
        → s.active_segment ≡ some x.segment_id
        → Follow s (fail u settings c x (record s { active_segment = none }))
    unfolding fail emit_error IsSame set_status change
    fail-Follow c x s active =
        let freed : Session T = record s { active_segment = none } in
        stopped-Follow x (set_status failed) s (fail u settings c x freed) active (λ y. refl)
          (λ y. refl)
          (emit-Steady settings (error c s.last_sequence)
            (change x.segment_id (set_status failed) freed))

    conclude-Follow :
        (clock : ℕ → ℕ) (reply : Reply) (x : Segment) (s : Session T)
        → s.active_segment ≡ some x.segment_id
        → Follow s
            (session_of (conclude u settings clock reply x (record s { active_segment = none })))
    unfolding conclude session_of IsSame set_translation
    conclude-Follow clock (failing code) x s active = fail-Follow (backend_errors code) x s active
    conclude-Follow clock (translated text) x s active =
        if_ind (λ h. Follow s (session_of h)) (is_too_long settings text freed) _ _
          (λ e. fail-Follow session_limit x s active)
          (λ e.
            stopped-Follow x (set_translation text) s _ active (λ y. refl) (λ y. refl)
              (keep-Steady u settings clock text x freed))
      where
        freed : Session T
        freed = record s { active_segment = none }

    pub result-Follow :
        (clock : ℕ → ℕ) (answer : Answer) (job : TranslationJob) (reply : Reply) (s : Session T)
        → Follow s (session_of (result u settings manager glossary_for clock answer job reply s))
    unfolding result session_of is_outdated
    result-Follow clock answer job reply s =
        found (first_segment (λ x. x.segment_id == job.segment_id) s.segments)
      where
        freed : Session T
        freed = record s { active_segment = none }

        found :
            (o : Option Segment)
            → Follow s (
                session_of (elim o [
                  | none ↦ returns s
                  | some x ↦
                      if is_outdated job x s
                      then returns s
                      else continue u settings manager glossary_for answer
                          (clock 3)
                          (conclude u settings clock reply x freed)
                ]))
        found none = Follow-refl s
        found (some x) =
            if_ind (λ h. Follow s (session_of h)) (is_outdated job x s) _ _ (λ e. Follow-refl s)
              (λ e. continue-Follow answer (clock 3) s (conclude u settings clock reply x freed) (
                conclude-Follow clock reply x s
                  (is_active_lem s.active_segment x.segment_id (ground arith))))
