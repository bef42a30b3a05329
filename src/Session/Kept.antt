-- ===== src/Session/Kept.antt =====
-- Committing and showing a translation in app/session/state.py keeps what runs.
use my_vote_server.Base.{
  ℕ, refl, Bool, not, ◌||◌, Option, none, some, ◌==◌, if◌then◌else◌, if_ind, Text,
}
use my_vote_server.Source.Text.{Unicode}
use my_vote_server.Draft.{DraftCommitter, ok, err, Draft, draft, propose, mark_committed}
use my_vote_server.Draft.{Outcome as Proposed, ready as draft_ready}
use my_vote_server.Session.State.{
  Segment, Settings, Kind, translation_update, translation_final, shown, Session, is_ready,
}
use my_vote_server.Session.Output.{snapshot, emit_snapshot, set_timer, arm_commit}
use my_vote_server.Session.Dispatch.{first_segment}
use my_vote_server.Session.Results.{
  Handled, returns, raises, session_of, set_committer, set_committed, set_translation, change,
  next_revision, commit, settle, keep, commit_due,
}
use my_vote_server.Session.Steady.{
  Steady, IsSame, same-Steady, Steady-trans, emit-Steady, change-Steady,
}

module _ {T : Type 0} (u : Unicode) (settings : Settings) where
  pub committer-Steady :
      (sid : ℕ) (c : DraftCommitter) (s : Session T) → Steady s (change sid (set_committer c) s)
  unfolding set_committer IsSame
  committer-Steady sid c s = change-Steady sid (set_committer c) s (λ x. refl) (λ x. refl)

  shown-Steady :
      (kind : Kind) (s : Session T) → Steady s (emit_snapshot u settings kind (next_revision s))
  unfolding emit_snapshot next_revision
  shown-Steady kind s =
      Steady-trans (same-Steady s (next_revision s) refl refl refl refl)
        (emit-Steady settings (shown (snapshot u kind (next_revision s))) (next_revision s))

  committed-Steady : (sid : ℕ) (s : Session T) → Steady s (change sid set_committed s)
  unfolding set_committed IsSame
  committed-Steady sid s = change-Steady sid set_committed s (λ x. refl) (λ x. refl)

  pub commit-Steady :
      (time : ℕ) (x : Segment) (s : Session T) → Steady s (session_of (commit u settings time x s))
  unfolding commit session_of
  commit-Steady time x s =
      if_ind (λ h. Steady s (session_of h)) x.committed _ _
        (λ e. same-Steady s s refl refl refl refl) (λ e. marked (mark_committed time x.committer).0)
    where
      s' : Session T
      s' = change x.segment_id (set_committer (mark_committed time x.committer).1) s

      stored : Steady s s'
      stored = committer-Steady x.segment_id _ s

      marked :
          (o : Proposed)
          → Steady s (
              session_of (elim o [
                | err e ↦ raises s'
                | ok d ↦ returns (
                    emit_snapshot u settings translation_final
                      (next_revision (change x.segment_id set_committed s')))
              ]))
      marked (err e) = stored
      marked (ok d) =
          Steady-trans stored
            (Steady-trans (committed-Steady x.segment_id s') (shown-Steady translation_final _))

  pub settle-Steady :
      (time : ℕ) (is_ready : Bool) (x : Segment) (s : Session T)
      → Steady s (session_of (settle u settings time is_ready x s))
  unfolding settle session_of arm_commit set_timer
  settle-Steady time is_ready x s =
      if_ind (λ h. Steady s (session_of h)) is_ready _ _ (λ e. commit-Steady time x s)
        (λ e. same-Steady s _ refl refl refl refl)

  pub keep-Steady :
      (clock : ℕ → ℕ) (text : Text) (x : Segment) (s : Session T)
      → Steady
          (change x.segment_id (set_translation text) s)
          (session_of (keep u settings clock text x s))
  unfolding keep session_of
  keep-Steady clock text x s = proposed (propose u (clock 0) proposal x.committer)
    where
      proposal : Draft
      proposal = draft x.start x.stop x.source text x.source_revision x.final_source

      made : Session T
      made = change x.segment_id (set_translation text) s

      proposed :
          (p : Proposed × DraftCommitter)
          → Steady made (
              session_of (elim p.0 [
                | err e ↦ raises (change x.segment_id (set_committer p.1) made)
                | ok d ↦
                    settle u settings
                      (clock 2)
                      (draft_ready (clock 1) p.1).0
                      (set_committer (draft_ready (clock 1) p.1).1 (set_translation text x))
                      (change x.segment_id (set_committer (draft_ready (clock 1) p.1).1) (
                        emit_snapshot u settings translation_update
                          (next_revision (change x.segment_id (set_committer p.1) made))))
              ]))
      proposed (err e, c) = committer-Steady x.segment_id c made
      proposed (ok d, c) = Steady-trans (committer-Steady x.segment_id c made) (
          Steady-trans (shown-Steady translation_update stored) (
            Steady-trans (committer-Steady x.segment_id (draft_ready (clock 1) c).1 noted) (
              settle-Steady (clock 2) (draft_ready (clock 1) c).0
                (set_committer (draft_ready (clock 1) c).1 (set_translation text x))
                (change x.segment_id (set_committer (draft_ready (clock 1) c).1) noted))))
        where
          stored : Session T
          stored = change x.segment_id (set_committer c) made

          noted : Session T
          noted = emit_snapshot u settings translation_update (next_revision stored)

  pub commit_due-Steady :
      (clock : ℕ → ℕ) (generation sid : ℕ) (s : Session T)
      → Steady s (session_of (commit_due u settings clock generation sid s))
  unfolding commit_due session_of
  commit_due-Steady clock generation sid s =
      if_ind (λ h. Steady s (session_of h)) (s.closed || not (generation == s.generation_id)) _ _
        (λ e. same-Steady s s refl refl refl refl)
        (λ e. found (first_segment (λ x. x.segment_id == sid) s.segments))
    where
      seen : Segment → Session T
      seen x = change sid (set_committer (draft_ready (clock 0) x.committer).1) s

      due : Segment → Handled T
      due x =
          if (draft_ready (clock 0) x.committer).0
          then commit u settings (clock 1) (set_committer (draft_ready (clock 0) x.committer).1 x)
              (seen x)
          else returns (seen x)

      found :
          (o : Option Segment)
          → Steady s (session_of (elim o [ none ↦ returns s | some x ↦ due x ]))
      found none = same-Steady s s refl refl refl refl
      found (some x) = Steady-trans (committer-Steady sid (draft_ready (clock 0) x.committer).1 s) (
          if_ind (λ h. Steady (seen x) (session_of h)) (draft_ready (clock 0) x.committer).0
            (commit u settings (clock 1) (set_committer (draft_ready (clock 0) x.committer).1 x)
              (seen x))
            (returns (seen x))
            (λ e.
              commit-Steady (clock 1) (set_committer (draft_ready (clock 0) x.committer).1 x)
                (seen x))
            (λ e. same-Steady (seen x) (seen x) refl refl refl refl))
