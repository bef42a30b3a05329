-- ===== src/Session/Steady.antt =====
-- The parts of app/session/state.py that leave the segments and the active one as they are, but for
-- what a segment shows.
use my_vote_server.Base.{
  ℕ, ◌≡◌, refl, sym, ap, ◌∙◌, not, ◌&&◌, Option, List, [], ◌∷◌, arith, ◌==◌, if_ind, All,
}
use my_vote_server.Source.Text.{Unicode}
use my_vote_server.Session.State.{Segment, Utterance, Settings, Event, Session, is_running}
use my_vote_server.Session.Output.{has_rest, emit, set_timer, arm}
use my_vote_server.Session.Dispatch.{update_segment}
use my_vote_server.Session.Results.{is_active, change, resume, arm_all}
use my_vote_server.Session.Lifecycle.{segment_ids, reopen, reopen_all}

-- A segment runs if and only if it is the active one.
unfoldable pub Follows : Option ℕ → Segment → Type 0
Follows a x = is_running x.status ≡ is_active a x.segment_id

pub record Steady {T : Type 0} (s t : Session T) : Type 0 where
  pub same_ids : segment_ids t.segments ≡ segment_ids s.segments
  pub same_next : t.next_segment ≡ s.next_segment
  pub same_generation : t.generation_id ≡ s.generation_id
  pub same_active : t.active_segment ≡ s.active_segment
  pub still_follows :
      All (Follows s.active_segment) s.segments → All (Follows t.active_segment) t.segments

-- A change that keeps the identifier of a segment.
unfoldable pub IsSame : (Segment → Segment) → Type 0
IsSame f = (x : Segment) → (f x).segment_id ≡ x.segment_id

pub segment_ids-update :
    (sid : ℕ) (f : Segment → Segment) (xs : List Segment)
    → IsSame f
    → segment_ids (update_segment sid f xs) ≡ segment_ids xs
unfolding segment_ids update_segment IsSame
segment_ids-update sid f [] same = refl
segment_ids-update sid f (x ∷ xs) same = ground (arith, segment_ids-update sid f xs same, same x)

pub update-keeps :
    (a : Option ℕ) (sid : ℕ) (f : Segment → Segment) (xs : List Segment)
    → IsSame f
    → ((x : Segment) → is_running (f x).status ≡ is_running x.status)
    → All (Follows a) xs
    → All (Follows a) (update_segment sid f xs)
unfolding update_segment IsSame Follows
update-keeps a sid f [] same runs h = tt
update-keeps a sid f (x ∷ xs) same runs h =
    if_ind (All (Follows a)) (x.segment_id == sid) _ _
      (λ e. (runs x ∙ h.0 ∙ ap (is_active a) (sym (same x)), update-keeps a sid f xs same runs h.1))
      (λ e. (h.0, update-keeps a sid f xs same runs h.1))

module _ {T : Type 0} where
  pub same-Steady :
      (s t : Session T)
      → t.segments ≡ s.segments
      → t.next_segment ≡ s.next_segment
      → t.generation_id ≡ s.generation_id
      → t.active_segment ≡ s.active_segment
      → Steady s t
  same-Steady s t xs n g a = record {
    same_ids = ap segment_ids xs;
    same_next = n;
    same_generation = g;
    same_active = a;
    still_follows = λ h. rw a (rw xs h);
  }

  pub Steady-trans : {s t r : Session T} → Steady s t → Steady t r → Steady s r
  Steady-trans p q = record {
    same_ids = q.same_ids ∙ p.same_ids;
    same_next = q.same_next ∙ p.same_next;
    same_generation = q.same_generation ∙ p.same_generation;
    same_active = q.same_active ∙ p.same_active;
    still_follows = λ h. q.still_follows (p.still_follows h);
  }

  pub emit-Steady :
      (settings : Settings) (event : Event) (s : Session T) → Steady s (emit settings event s)
  unfolding emit
  emit-Steady settings event s =
      same-Steady s _ (ground arith) (ground arith) (ground arith) (ground arith)

  pub arm-Steady : (uid : ℕ) (s : Session T) → Steady s (arm uid s)
  unfolding arm set_timer
  arm-Steady uid s = same-Steady s _ (ground arith) (ground arith) (ground arith) (ground arith)

  pub resume-Steady :
      (u : Unicode) (us : List (Utterance T)) (s : Session T) → Steady s (resume u us s)
  unfolding resume
  resume-Steady u [] s = same-Steady s s refl refl refl refl
  resume-Steady u (x ∷ xs) s =
      Steady-trans
        (if_ind (Steady s) (has_rest u x && not x.incomplete_reported) _ _
          (λ e. arm-Steady x.utterance_id s) (λ e. same-Steady s s refl refl refl refl))
        (resume-Steady u xs _)

  pub arm_all-Steady : (us : List (Utterance T)) (s : Session T) → Steady s (arm_all us s)
  unfolding arm_all
  arm_all-Steady [] s = same-Steady s s refl refl refl refl
  arm_all-Steady (x ∷ xs) s = Steady-trans (arm-Steady x.utterance_id s) (arm_all-Steady xs _)

  -- The segments, the active one, the number of the next one and the generation are the same.
  unfoldable pub SameSegments : Session T → Session T → Type 0
  SameSegments s t =
      (t.segments ≡ s.segments)
      × (t.active_segment ≡ s.active_segment)
      × (t.next_segment ≡ s.next_segment)
      × (t.generation_id ≡ s.generation_id)

  reopen-SameSegments : (x : Segment) (s : Session T) → SameSegments s (reopen x s)
  unfolding SameSegments reopen arm set_timer
  reopen-SameSegments x s = (ground arith, ground arith, ground arith, ground arith)

  pub reopen_all-SameSegments :
      (xs : List Segment) (s : Session T) → SameSegments s (reopen_all xs s)
  unfolding SameSegments reopen_all
  reopen_all-SameSegments [] s = (refl, refl, refl, refl)
  reopen_all-SameSegments (x ∷ xs) s =
      let (p, q, r, g) = reopen-SameSegments x s in
      let (p', q', r', g') = reopen_all-SameSegments xs (reopen x s) in
      (p' ∙ p, q' ∙ q, r' ∙ r, g' ∙ g)

  pub change-Steady :
      (sid : ℕ) (f : Segment → Segment) (s : Session T)
      → IsSame f
      → ((x : Segment) → is_running (f x).status ≡ is_running x.status)
      → Steady s (change sid f s)
  unfolding change
  change-Steady sid f s same runs = record {
    same_ids = segment_ids-update sid f s.segments same;
    same_next = refl;
    same_generation = refl;
    same_active = refl;
    still_follows = update-keeps s.active_segment sid f s.segments same runs;
  }
