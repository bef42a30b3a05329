-- ===== src/Session/Handling.antt =====
-- Each operation of app/session/state.py keeps the order of IsOrderly.
use my_vote_server.Base.{
  ℕ, ◌+◌, ◌≤◌, ◌≡◌, refl, sym, ap, ◌∙◌, true, false, none, some, [], ◌∷◌, arith, All, contains,
}
use my_vote_server.Session.State.{hang_up, cancel_all_jobs, Session}
use my_vote_server.Session.Output.{cancel_timers, call}
use my_vote_server.Session.Results.{is_active}
use my_vote_server.Session.Lifecycle.{segment_ids, detach, close}
use my_vote_server.Session.Steady.{Follows, Steady, same-Steady}
use my_vote_server.Session.Order.{IsOrderly, Steady-IsOrderly, requeue-stops, segment_ids-requeue}

-- What every operation keeps: the order, and that neither the generation nor the number of the
-- next segment falls, so that no segment comes back under an old identifier.
pub record Follow {T : Type 0} (s t : Session T) : Type 0 where
  pub orderly : IsOrderly s → IsOrderly t
  pub generation_up : s.generation_id ≤ t.generation_id
  pub next_up : s.next_segment ≤ t.next_segment
  pub never_again :
      (k : ℕ)
      → k ≤ s.next_segment
      → contains k (segment_ids s.segments) ≡ false
      → contains k (segment_ids t.segments) ≡ false

module _ {T : Type 0} where
  pub Steady-Follow : {s t : Session T} → Steady s t → Follow s t
  Steady-Follow p = record {
    orderly = Steady-IsOrderly p;
    generation_up = rw p.same_generation omega arith;
    next_up = rw p.same_next omega arith;
    never_again = λ k le h. ap (contains k) p.same_ids ∙ h;
  }

  pub Follow-refl : (s : Session T) → Follow s s
  Follow-refl s = Steady-Follow (same-Steady s s refl refl refl refl)

  pub Follow-trans : {s t r : Session T} → Follow s t → Follow t r → Follow s r
  Follow-trans {s} {t} {r} p q = record {
    orderly = λ o. q.orderly (p.orderly o);
    generation_up = omega (arith, p.generation_up, q.generation_up);
    next_up = omega (arith, p.next_up, q.next_up);
    never_again = λ k le h. q.never_again k (omega (arith, p.next_up, le)) (p.never_again k le h);
  }

  -- A session with the same identifiers, numbers and generation.
  pub same-Follow :
      (s t : Session T)
      → segment_ids t.segments ≡ segment_ids s.segments
      → t.next_segment ≡ s.next_segment
      → s.generation_id ≤ t.generation_id
      → (IsOrderly s
          → All (Follows t.active_segment) t.segments
            × ((k : ℕ)
                → is_active t.active_segment k ≡ true
                → contains k (segment_ids s.segments) ≡ true))
      → Follow s t
  same-Follow s t ids n g rest = record {
    orderly = λ o. record {
      follows = (rest o).0;
      unique = rw ids o.unique;
      named = λ k h. rw n (o.named k (sym (ap (contains k) ids) ∙ h));
      present = λ k h. rw ids ((rest o).1 k h);
    };
    generation_up = g;
    next_up = rw n omega arith;
    never_again = λ k le h. ap (contains k) ids ∙ h;
  }

  pub detach-Follow : (s : Session T) → Follow s (detach s)
  unfolding detach call cancel_timers is_active
  detach-Follow s =
      same-Follow s (detach s) (segment_ids-requeue s.segments) refl (omega arith)
        (λ o. (requeue-stops s.active_segment s.segments, λ k h. ground arith))

  pub close-Follow : (s : Session T) → Follow s (close s)
  unfolding close call cancel_timers
  close-Follow s =
      elim s.queue
        as (λ q. Follow s (elim q [
          | none ↦ cancelled
          | some events ↦ record cancelled { queue = some (hang_up ∷ []) }
        ])) [
          | none ↦ same-Follow s cancelled refl refl (omega arith) (λ o. (o.follows, o.present))
          | some events ↦ same-Follow s _ refl refl (omega arith) (λ o. (o.follows, o.present))
        ]
    where
      cancelled : Session T
      cancelled =
          call cancel_all_jobs
            (cancel_timers (record s { closed = true; generation_id = s.generation_id + 1 }))
