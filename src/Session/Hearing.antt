-- ===== src/Session/Hearing.antt =====
-- Taking in a hypothesis keeps the order of a session of app/session/state.py.
use my_vote_server.Draft.{DraftCommitter, ready as draft_ready}
use my_vote_server.Base.{
  ℕ, ◌+◌, ◌≡◌, refl, not, ◌&&◌, ◌||◌, Option, none, some, List, [], ◌∷◌, map, arith, ◌==◌,
  if◌then◌else◌, if_ind, get_or_else, is_empty, get_elem?, filter, get,
}
use my_vote_server.Source.Text.{Unicode}
use my_vote_server.Source.Revision.{RevisionPlan, plan_revision}
use my_vote_server.Session.State.{
  ready, running, complete, failed, Segment, Utterance, Settings, source_reconciliation_pending,
  session_state, shown, error, Session, is_running,
}
use my_vote_server.Session.Output.{snapshot, emit_snapshot, emit_error, arm}
use my_vote_server.Session.Dispatch.{first_segment}
use my_vote_server.Session.Results.{
  Handled, returns, raises, session_of, set_committer, change, next_revision,
}
use my_vote_server.Session.Lifecycle.{rollback}
use my_vote_server.Session.Ingest.{
  AsrEvent, Stability, Tracking, Refusal, index_of, retry_status, retry, and_then, refusal,
  refusal_of, name_next, name_utterance, new_utterance, with_utterance, accept, withdraw, reheard,
  confirm, confirm_all, announce, adopt, revise, hear, ingest,
}
use my_vote_server.Session.Steady.{
  Steady, IsSame, same-Steady, Steady-trans, emit-Steady, arm-Steady, SameSegments, change-Steady,
}
use my_vote_server.Session.Kept.{committer-Steady, commit-Steady}
use my_vote_server.Session.Handling.{Follow, Steady-Follow, Follow-refl, Follow-trans}
use my_vote_server.Session.Withdrawing.{rollback-Follow}

still_running : (x : Segment) → is_running (retry x).status ≡ is_running x.status
unfolding retry retry_status
still_running x = elim x.status as (λ t. is_running (retry_status t) ≡ is_running t) [
  | ready ↦ refl
  | running ↦ refl
  | complete ↦ refl
  | failed ↦ refl
]

module _ {T : Type 0} (u : Unicode) (settings : Settings) (tracking : Tracking T) where
  and_then-Steady :
      (s : Session T) (h : Handled T) (f : Session T → Handled T)
      → Steady s (session_of h)
      → ((t : Session T) → Steady t (session_of (f t)))
      → Steady s (session_of (and_then h f))
  unfolding and_then session_of
  and_then-Steady s (returns t) f p later = Steady-trans p (later t)
  and_then-Steady s (raises t) f p later = p

  confirm-Steady :
      (clock : ℕ → ℕ) (x : Segment) (s : Session T)
      → Steady s (session_of (confirm u settings tracking clock x s))
  unfolding confirm session_of
  confirm-Steady clock x s =
      if_ind (λ h. Steady s (session_of h)) (is_empty x.translation || x.committed) _ _
        (λ e. same-Steady s s refl refl refl refl)
        (λ e. Steady-trans (committer-Steady u settings x.segment_id c s) (
          if_ind (λ h. Steady seen (session_of h)) (draft_ready (clock 0) x.committer).0 _ _
            (λ f. commit-Steady u settings (clock 1) (set_committer c x) seen)
            (λ f. same-Steady seen seen refl refl refl refl)))
    where
      c : DraftCommitter
      c = (draft_ready (clock 0) x.committer).1

      seen : Session T
      seen = change x.segment_id (set_committer c) s

  retry-Steady : (sid : ℕ) (s : Session T) → Steady s (change sid retry s)
  unfolding retry IsSame
  retry-Steady sid s = change-Steady sid retry s (λ x. refl) still_running

  confirm_all-Steady :
      (clock : ℕ → ℕ) (ys : List Segment) (s : Session T)
      → Steady s (session_of (confirm_all u settings tracking clock ys s))
  unfolding confirm_all session_of
  confirm_all-Steady clock [] s = same-Steady s s refl refl refl refl
  confirm_all-Steady clock (y ∷ ys) s =
      found (first_segment (λ x. x.segment_id == y.segment_id) s.segments)
        (λ t. confirm_all-Steady (λ k. clock (k + 2)) ys t)
    where
      later : Session T → Handled T
      later t = confirm_all u settings tracking (λ k. clock (k + 2)) ys t

      found :
          (o : Option Segment)
          → ((t : Session T) → Steady t (session_of (later t)))
          → Steady s (
              session_of (elim o [
                | none ↦ later s
                | some x ↦
                    and_then
                      (confirm u settings tracking clock x s)
                      (λ t. later (change x.segment_id retry t))
              ]))
      found none rest = rest s
      found (some x) rest =
          and_then-Steady s (confirm u settings tracking clock x s)
            (λ t. later (change x.segment_id retry t)) (confirm-Steady clock x s)
            (λ t. Steady-trans (retry-Steady x.segment_id t) (rest (change x.segment_id retry t)))

  announce-Steady :
      (clock : ℕ → ℕ) (uid : ℕ) (e : AsrEvent) (old : List Segment) (s : Session T)
      → Steady s (session_of (announce u settings tracking clock uid e old s))
  unfolding announce session_of next_revision emit_snapshot
  announce-Steady clock uid e old s = Steady-trans shown_one (
      if_ind (λ h. Steady told (session_of h)) e.is_final _ _
        (λ f. confirm_all-Steady clock old told) (λ f. same-Steady told told refl refl refl refl))
    where
      moved : Session T
      moved = next_revision s

      told : Session T
      told = arm uid (emit_snapshot u settings session_state moved)

      shown_one : Steady s told
      shown_one = Steady-trans (same-Steady s moved refl refl refl refl) (
          Steady-trans (emit-Steady settings (shown (snapshot u session_state moved)) moved)
            (arm-Steady uid (emit_snapshot u settings session_state moved)))

  with_utterance-Steady :
      (uid : ℕ) (x : Utterance T) (s : Session T)
      → Steady s (with_utterance u settings tracking uid x s)
  unfolding with_utterance
  with_utterance-Steady uid x s = same-Steady s _ refl refl refl refl

  adopt-Steady :
      (clock : ℕ → ℕ) (uid : ℕ) (e : AsrEvent) (stability : Stability) (old : List Segment)
      (s : Session T)
      → Steady s (session_of (adopt u settings tracking clock uid e stability old s))
  unfolding adopt session_of
  adopt-Steady clock uid e stability old s = found (get uid s.utterances)
    where
      kept : Utterance T → Option T → Handled T
      kept x o = elim o [
        | none ↦ raises (with_utterance u settings tracking uid x s)
        | some t ↦
            announce u settings tracking clock uid e old
              (with_utterance u settings tracking uid (record x { tracker = t }) s)
      ]

      kept-Steady : (x : Utterance T) (o : Option T) → Steady s (session_of (kept x o))
      kept-Steady x none = with_utterance-Steady uid x s
      kept-Steady x (some t) =
          Steady-trans (with_utterance-Steady uid (record x { tracker = t }) s) (
            announce-Steady clock uid e old
              (with_utterance u settings tracking uid (record x { tracker = t }) s))

      after : Utterance T → Utterance T
      after x = reheard u settings tracking e stability x

      found :
          (o : Option (Utterance T))
          → Steady s (
              session_of (elim o [
                | none ↦ raises s
                | some x ↦
                    kept
                      (after x)
                      (tracking.commit_prefix (after x).stable_end e.is_final (after x).tracker)
              ]))
      found none = same-Steady s s refl refl refl refl
      found (some x) =
          kept-Steady (after x)
            (tracking.commit_prefix (after x).stable_end e.is_final (after x).tracker)

  withdraw-Follow :
      (plan : RevisionPlan) (old : List Segment) (s : Session T)
      → Follow s (withdraw u settings tracking plan old s)
  unfolding withdraw
  withdraw-Follow plan old s = found (get_elem? old plan.rollback_segment_index)
    where
      found :
          (o : Option Segment)
          → Follow s (elim o [
            | none ↦ s
            | some first ↦ rollback u settings (index_of first.segment_id s.segments) s
          ])
      found none = Follow-refl s
      found (some first) = rollback-Follow u settings (index_of first.segment_id s.segments) s

  revise-Follow :
      (clock : ℕ → ℕ) (uid : ℕ) (e : AsrEvent) (stability : Stability) (x : Utterance T)
      (s : Session T)
      → Follow s (session_of (revise u settings tracking clock uid e stability x s))
  unfolding revise session_of
  revise-Follow clock uid e stability x s =
      planned
        (plan_revision u x.text e.text (map (λ y. record { start = y.start; stop = y.stop }) old))
    where
      old : List Segment
      old = filter (λ y. y.utterance_id == uid) s.segments

      planned :
          (o : Option RevisionPlan)
          → Follow s (
              session_of (elim o [
                | none ↦ raises s
                | some plan ↦
                    adopt u settings tracking clock uid e stability old
                      (withdraw u settings tracking plan old s)
              ]))
      planned none = Follow-refl s
      planned (some plan) = Follow-trans (withdraw-Follow plan old s) (
          Steady-Follow
            (adopt-Steady clock uid e stability old (withdraw u settings tracking plan old s)))

  hear-Follow :
      (clock : ℕ → ℕ) (uid : ℕ) (e : AsrEvent) (x : Utterance T) (s : Session T)
      → Follow s (session_of (hear u settings tracking clock uid e x s))
  unfolding hear session_of emit_error
  hear-Follow clock uid e x s = observed (tracking.observe_event e x.tracker)
    where
      seen : T → Session T
      seen t = with_utterance u settings tracking uid (record x { tracker = t }) s

      observed :
          (o : Option (Stability × T))
          → Follow s (
              session_of (elim o [
                | none ↦ raises (with_utterance u settings tracking uid x s)
                | some (stability, t) ↦
                    if stability.prefix_conflict && not e.is_final
                    then returns (emit_error settings source_reconciliation_pending (seen t))
                    else revise u settings tracking clock uid e stability x (seen t)
              ]))
      observed none = Steady-Follow (with_utterance-Steady uid x s)
      observed (some (stability, t)) =
          Follow-trans (Steady-Follow (with_utterance-Steady uid (record x { tracker = t }) s)) (
            if_ind (λ h. Follow (seen t) (session_of h))
              (stability.prefix_conflict && not e.is_final) _ _
              (λ f. Steady-Follow (
                emit-Steady settings (error source_reconciliation_pending s.last_sequence)
                  (seen t)))
              (λ f. revise-Follow clock uid e stability x (seen t)))

  name_utterance-SameSegments :
      (e : AsrEvent) (s : Session T) → SameSegments s (name_utterance u settings tracking e s).1
  unfolding name_utterance name_next SameSegments
  name_utterance-SameSegments e s = (ground arith, ground arith, ground arith, ground arith)

  pub ingest-Follow :
      (clock : ℕ → ℕ) (e : AsrEvent) (s : Session T)
      → Follow s (session_of (ingest u settings tracking clock e s).1)
  unfolding ingest session_of accept SameSegments
  ingest-Follow clock e s = checked (refusal settings e s)
    where
      uid : ℕ
      uid = (name_utterance u settings tracking e s).0

      named : Session T
      named = (name_utterance u settings tracking e s).1

      named-Follow : Follow s named
      named-Follow =
          let (xs, a, n, g) = name_utterance-SameSegments e s in
          Steady-Follow (same-Steady s named xs n g a)

      old : Option (Utterance T)
      old = get uid named.utterances

      x : Utterance T
      x = get_or_else old (new_utterance u settings tracking (clock 0) uid e)

      accepted_one : Session T
      accepted_one = accept u settings tracking uid e named

      known : Option Refusal → Option Refusal × Handled T
      known o = elim o [
        | some r ↦ (some r, raises named)
        | none ↦ (none, hear u settings tracking (λ k. clock (k + 1)) uid e x accepted_one)
      ]

      known-Follow : (o : Option Refusal) → Follow s (session_of (known o).1)
      known-Follow (some r) = named-Follow
      known-Follow none = Follow-trans named-Follow (
          Follow-trans (Steady-Follow (same-Steady named accepted_one refl refl refl refl))
            (hear-Follow (λ k. clock (k + 1)) uid e x accepted_one))

      answered : Option Refusal → Option Refusal × Handled T
      answered o = elim o [
        | some r ↦ (some r, raises s)
        | none ↦ known (refusal_of settings e old named)
      ]

      checked : (o : Option Refusal) → Follow s (session_of (answered o).1)
      checked (some r) = Follow-refl s
      checked none = known-Follow (refusal_of settings e old named)
