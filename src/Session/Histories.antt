-- ===== src/Session/Histories.antt =====
-- Sessions of app/session/state.py under any interleaving of their handlers. Each handler holds the
-- session's lock, so each is one step; the answers of the scheduler, the clock, and the order are
-- arbitrary.
use my_vote_server.Session.Ingest.{AsrEvent, Tracking, ingest}
use my_vote_server.Session.Hearing.{ingest-Follow}
use my_vote_server.Session.Output.{emit, emit_snapshot, cancel_timers, call}
use my_vote_server.Base.{
  ℕ, ◌+◌, ◌≤◌, ◌<◌, ◌≡◌, refl, ap, ◌∙◌, ◌⊎◌, inl, inr, true, false, Option, none, some, List, [],
  arith, ◌==◌, if◌then◌else◌, drop, Text, contains,
}
use my_vote_server.Source.Text.{Unicode}
use my_vote_server.Context.{ContextManager}
use my_vote_server.Policy.{SegmentCandidate}
use my_vote_server.Translation.Scheduler.{Outcome as Answer}
use my_vote_server.Translation.Job.{TranslationJob}
use my_vote_server.Session.State.{Segment, Utterance, Settings, Session}
use my_vote_server.Session.Dispatch.{first_segment, dispatch_next}
use my_vote_server.Session.Results.{
  Reply, Handled, returns, session_of, is_active, is_outdated, conclude, continue, result,
  commit_due, attach,
}
use my_vote_server.Session.Lifecycle.{segment_ids, detach, close, write_segment, reset, rollback}
use my_vote_server.Session.Kept.{commit_due-Steady}
use my_vote_server.Session.Order.{
  IsOrderly, first_segment_listed, first_segment_holds, contains-cut,
}
use my_vote_server.Session.Handling.{
  Follow, Steady-Follow, Follow-refl, Follow-trans, detach-Follow, close-Follow,
}
use my_vote_server.Session.Scheduling.{dispatch_next-Follow, attach-Follow, result-Follow}
use my_vote_server.Session.Withdrawing.{
  write_segment-Follow, reset-Follow, rollback-Follow, withdrawn-absent,
}

-- What the handlers work with.
pub record Parts (T : Type 0) : Type 0 where
  pub unicode : Unicode
  pub settings : Settings
  pub manager : ContextManager
  pub glossary_for : Text → List (Text × Text)
  pub tracking : Tracking T

pub data Step {T : Type 0} (p : Parts T) (s : Session T) : Session T → Type 0 where
  attaches :
      (clock : ℕ → ℕ) (answer : Answer) (h : Handled T)
      → attach p.unicode p.settings p.manager p.glossary_for clock answer s ≡ some h
      → Step p s (session_of h)
  ingests :
      (clock : ℕ → ℕ) (e : AsrEvent)
      → Step p s (session_of (ingest p.unicode p.settings p.tracking clock e s).1)
  detaches : Step p s (detach s)
  resets : Step p s (reset p.unicode p.settings s)
  closes : Step p s (close s)
  rolls_back : (index : ℕ) → Step p s (rollback p.unicode p.settings index s)
  writes :
      (time : ℕ) (u : Utterance T) (chosen : SegmentCandidate)
      → Step p s (write_segment p.settings time u chosen s)
  dispatches :
      (answer : Answer) (time : ℕ)
      → Step p s (dispatch_next p.settings p.manager p.glossary_for answer time s)
  answers :
      (clock : ℕ → ℕ) (answer : Answer) (job : TranslationJob) (reply : Reply)
      → Step p s (
          session_of
            (result p.unicode p.settings p.manager p.glossary_for clock answer job reply s))
  commits :
      (clock : ℕ → ℕ) (generation sid : ℕ)
      → Step p s (session_of (commit_due p.unicode p.settings clock generation sid s))

pub data Reach {T : Type 0} (p : Parts T) (s : Session T) : Session T → Type 0 where
  here : Reach p s s
  next : {t r : Session T} → Reach p s t → Step p t r → Reach p s r

Step-Follow : {T : Type 0} (p : Parts T) {s t : Session T} → Step p s t → Follow s t
Step-Follow p {s} (attaches clock answer h e) =
    attach-Follow p.unicode p.settings p.manager p.glossary_for clock answer s h e
Step-Follow p {s} (ingests clock e) = ingest-Follow p.unicode p.settings p.tracking clock e s
Step-Follow p {s} detaches = detach-Follow s
Step-Follow p {s} resets = reset-Follow p.unicode p.settings s
Step-Follow p {s} closes = close-Follow s
Step-Follow p {s} (rolls_back index) = rollback-Follow p.unicode p.settings index s
Step-Follow p {s} (writes time u chosen) = write_segment-Follow p.settings time u chosen s
Step-Follow p {s} (dispatches answer time) =
    dispatch_next-Follow p.settings p.manager p.glossary_for answer time s
Step-Follow p {s} (answers clock answer job reply) =
    result-Follow p.unicode p.settings p.manager p.glossary_for clock answer job reply s
Step-Follow p {s} (commits clock generation sid) =
    Steady-Follow (commit_due-Steady p.unicode p.settings clock generation sid s)

Reach-Follow : {T : Type 0} (p : Parts T) {s t : Session T} → Reach p s t → Follow s t
Reach-Follow p {s} here = Follow-refl s
Reach-Follow p (next r st) = Follow-trans (Reach-Follow p r) (Step-Follow p st)

-- A session that starts without segments stays in order however its handlers interleave and
-- whatever the scheduler answers: a segment is being translated if and only if it is the active
-- one, so never two at once; the active segment is one of the segments, so the place of the next
-- job is never lost; and no two segments have one identifier, nor a later one than was given out.
pub Reach-IsOrderly :
    {T : Type 0} (p : Parts T) (s t : Session T)
    → s.segments ≡ []
    → s.active_segment ≡ none
    → Reach p s t
    → IsOrderly t
unfolding is_active segment_ids
Reach-IsOrderly p s t xs a r = (Reach-Follow p r).orderly (record {
  follows = rw xs tt;
  unique = rw xs refl;
  named = λ k h. absurd (ground (arith, ap (λ r. contains k (segment_ids r)) xs));
  present = λ k h. absurd (ground (arith, ap (λ r. is_active r k) a));
})

-- Leaving, clearing and ending a session begin a new generation.
module _ {T : Type 0} (p : Parts T) where
  ended-generation :
      (s s' : Session T)
      → (s' ≡ detach s) ⊎ ((s' ≡ reset p.unicode p.settings s) ⊎ (s' ≡ close s))
      → s'.generation_id ≡ s.generation_id + 1
  unfolding detach reset close call cancel_timers emit_snapshot emit
  ended-generation s s' (inl e) = ap (λ r. r.generation_id) e
  ended-generation s s' (inr (inl e)) = ap (λ r. r.generation_id) e ∙ ground arith
  ended-generation s s' (inr (inr e)) = ap (λ r. r.generation_id) e ∙ ground arith

module _ {T : Type 0} (p : Parts T) where
  abbrev pub answer_to : (ℕ → ℕ) → Answer → TranslationJob → Reply → Session T → Handled T
  answer_to = result p.unicode p.settings p.manager p.glossary_for

  unknown_segment :
      (clock : ℕ → ℕ) (answer : Answer) (job : TranslationJob) (reply : Reply) (t : Session T)
      → contains job.segment_id (segment_ids t.segments) ≡ false
      → answer_to clock answer job reply t ≡ returns t
  unfolding result
  unknown_segment clock answer job reply t absent =
      found (first_segment (λ x. x.segment_id == job.segment_id) t.segments) refl
    where
      found :
          (o : Option Segment)
          → first_segment (λ x. x.segment_id == job.segment_id) t.segments ≡ o
          → elim o [
            | none ↦ returns t
            | some x ↦
                if is_outdated job x t
                then returns t
                else continue p.unicode p.settings p.manager p.glossary_for answer (clock 3) (
                    conclude p.unicode p.settings clock reply x
                      (record t { active_segment = none }))
          ]
            ≡ returns t
      found none e = refl
      found (some x) e = absurd (
          ground (
            arith,
            first_segment_holds (λ y. y.segment_id == job.segment_id) t.segments x e,
            first_segment_listed (λ y. y.segment_id == job.segment_id) t.segments x e,
          ))

  other_generation :
      (clock : ℕ → ℕ) (answer : Answer) (job : TranslationJob) (reply : Reply) (t : Session T)
      → job.generation_id < t.generation_id
      → answer_to clock answer job reply t ≡ returns t
  unfolding result is_outdated
  other_generation clock answer job reply t old =
      found (first_segment (λ x. x.segment_id == job.segment_id) t.segments)
    where
      found :
          (o : Option Segment)
          → elim o [
            | none ↦ returns t
            | some x ↦
                if is_outdated job x t
                then returns t
                else continue p.unicode p.settings p.manager p.glossary_for answer (clock 3) (
                    conclude p.unicode p.settings clock reply x
                      (record t { active_segment = none }))
          ]
            ≡ returns t
      found none = refl
      found (some x) = ground arith

  -- A result that comes with the generation of before a `detach`, `reset` or `close`, however much
  -- later and whatever happened in between, changes nothing of the session.
  pub result-outdated :
      (s s' t : Session T)
      → (s' ≡ detach s) ⊎ ((s' ≡ reset p.unicode p.settings s) ⊎ (s' ≡ close s))
      → Reach p s' t
      → (clock : ℕ → ℕ) (answer : Answer) (job : TranslationJob) (reply : Reply)
      → job.generation_id ≤ s.generation_id
      → answer_to clock answer job reply t ≡ returns t
  result-outdated s s' t ended r clock answer job reply old =
      other_generation clock answer job reply t
        (omega (arith, (Reach-Follow p r).generation_up, ended-generation p s s' ended, old))

  -- A result for a segment that a `rollback` withdrew changes nothing, however much later it comes
  -- and whatever happened in between: its identifier is not given out again.
  pub rollback-result :
      (index : ℕ) (s t : Session T)
      → IsOrderly s
      → Reach p (rollback p.unicode p.settings index s) t
      → (clock : ℕ → ℕ) (answer : Answer) (job : TranslationJob) (reply : Reply)
      → contains job.segment_id (segment_ids (drop index s.segments)) ≡ true
      → answer_to clock answer job reply t ≡ returns t
  rollback-result index s t o r clock answer job reply gone =
      unknown_segment clock answer job reply t (
        (Reach-Follow p r).never_again job.segment_id
          (omega (
            arith,
            (rollback-Follow p.unicode p.settings index s).next_up,
            o.named job.segment_id (ground (arith, contains-cut job.segment_id index s.segments)),
          ))
          (withdrawn-absent p.unicode p.settings index s job.segment_id o.unique gone))
