-- ===== src/Engine/Inference/Bookkeeping.antt =====
-- What AsrInferenceScheduler of
-- MyVote-Speaker-Update/src/myvote_engine/inference_scheduler.py keeps of its calls.
use my_vote_server.Base.{
  ℕ, ◌≤◌, ◌<◌, ◌≡◌, refl, sym, ap, ◌∙◌, inl, inr, Bool, true, false, not, ◌&&◌, ◌||◌, Option, none,
  some, List, [], ◌∷◌, ◌++◌, arith, leb, ◌==◌, ==_iff, Bool-cases, if_ind, is_some, length,
  is_empty, any, filter, length-append, length-filter-le, Dict, has, has-put,
}
use my_vote_server.Engine.Inference.{
  Outcome, cancelled, Call, AsrScheduler, is_done, settle, Priority, first, second, queue_of,
  limit_of, set_queue, Answer, enqueue, submit, cancel, cancel_all, close,
}

unfoldable pub is_queued : ℕ → List Call → Bool
is_queued k q = any (λ c. c.future == k) q

unfoldable pub is_active : ℕ → Option Call → Bool
is_active k none = false
is_active k (some c) = c.future == k

-- A call is answered, waits in a queue, or runs.
unfoldable pub is_tracked : ℕ → AsrScheduler → Bool
unfolding has is_queued is_active
is_tracked k s =
    has k s.futures || is_queued k s.primary || is_queued k s.secondary || is_active k s.active

unfoldable pub has_waiting : AsrScheduler → Bool
has_waiting s = not (is_empty s.primary && is_empty s.secondary)

pub record IsValid (s : AsrScheduler) : Type 0 where
  pub primary_bounded : length s.primary ≤ s.max_primary_pending
  pub secondary_bounded : length s.secondary ≤ s.max_secondary_pending
  pub tracked : (k : ℕ) → k < s.next_future → is_tracked k s ≡ true
  pub served : (s.worker || not (has_waiting s)) ≡ true
  pub owned : (s.worker || not (is_some s.active)) ≡ true
  pub quiet : (not s.closed || not (has_waiting s)) ≡ true

pub has-settle :
    (k j : ℕ) (o : Outcome) (futures : Dict Outcome)
    → has j (settle k o futures) ≡ (k == j || has j futures)
unfolding settle
has-settle k j o futures =
    if_ind (λ (d : Dict Outcome). has j d ≡ (k == j || has j futures)) (has k futures) _ _
      (λ there. elim (Bool-cases (k == j)) [
        | inl e ↦ there_too ((==_iff k j).0 e) there
        | inr e ↦ ground (arith, e)
      ])
      (λ absent. ground (arith, has-put k j o futures))
  where
    there_too : k ≡ j → has k futures ≡ true → has j futures ≡ (k == j || has j futures)
    there_too e there = ground (arith, sym (ap (λ i. has i futures) e) ∙ there)

live-queued :
    (futures : Dict Outcome) (k : ℕ) (q : List Call)
    → is_queued k q ≡ true
    → (has k futures || is_queued k (filter (λ c. not (is_done futures c)) q)) ≡ true
unfolding is_queued is_done
live-queued futures k [] h = absurd (ground (arith, h))
live-queued futures k (c ∷ cs) h =
    let rest = live-queued futures k cs in
    elim (Bool-cases (c.future == k)) [
      | inl e ↦ ground (arith, e, ap (λ i. has i futures) ((==_iff c.future k).0 e))
      | inr e ↦ ground (arith, e, h, rest)
    ]

live_empty :
    (futures : Dict Outcome) (q : List Call)
    → is_empty q ≡ true
    → is_empty (filter (λ c. not (is_done futures c)) q) ≡ true
live_empty futures [] h = refl
live_empty futures (c ∷ cs) h = absurd (ground (arith, h))

is_queued-append :
    (k : ℕ) (q : List Call) (c : Call)
    → is_queued k (q ++ c ∷ []) ≡ (is_queued k q || c.future == k)
unfolding is_queued
is_queued-append k [] c = ground arith
is_queued-append k (d ∷ ds) c = ground (arith, is_queued-append k ds c)

length-live :
    (futures : Dict Outcome) (q : List Call)
    → length (filter (λ c. not (is_done futures c)) q) ≤ length q
length-live futures q = length-filter-le (λ c. not (is_done futures c)) q

has-cancel_all :
    (k : ℕ) (cs : List Call) (futures : Dict Outcome)
    → has k (cancel_all cs futures) ≡ (has k futures || is_queued k cs)
unfolding cancel_all is_queued
has-cancel_all k [] futures = ground arith
has-cancel_all k (c ∷ cs) futures = ground (
  arith,
  has-cancel_all k cs (settle c.future cancelled futures),
  has-settle c.future k cancelled futures,
)

pub cancel-IsValid : (k : ℕ) (s : AsrScheduler) → IsValid s → IsValid (cancel k s)
unfolding cancel is_tracked has_waiting
cancel-IsValid k s v = record {
  primary_bounded = v.primary_bounded;
  secondary_bounded = v.secondary_bounded;
  tracked = λ j h. ground (arith, v.tracked j h, has-settle k j cancelled s.futures);
  served = v.served;
  owned = v.owned;
  quiet = v.quiet;
}

pub close-IsValid : (s : AsrScheduler) → IsValid s → IsValid (close s)
unfolding close is_tracked has_waiting is_queued
close-IsValid s v = record {
  primary_bounded = omega arith;
  secondary_bounded = omega arith;
  tracked = λ j h. ground (
    arith,
    v.tracked j h,
    has-cancel_all j s.secondary (cancel_all s.primary s.futures),
    has-cancel_all j s.primary s.futures,
  );
  served = ground arith;
  owned = v.owned;
  quiet = ground arith;
}

set_queue-IsValid :
    (p : Priority) (s : AsrScheduler)
    → IsValid s
    → IsValid (set_queue p (filter (λ c. not (is_done s.futures c)) (queue_of p s)) s)
unfolding set_queue queue_of is_tracked has_waiting
set_queue-IsValid first s v = record {
  primary_bounded = omega (arith, v.primary_bounded, length-live s.futures s.primary);
  secondary_bounded = v.secondary_bounded;
  tracked = λ k h. ground (arith, v.tracked k h, live-queued s.futures k s.primary);
  served = ground (arith, v.served, live_empty s.futures s.primary);
  owned = v.owned;
  quiet = ground (arith, v.quiet, live_empty s.futures s.primary);
}
set_queue-IsValid second s v = record {
  primary_bounded = v.primary_bounded;
  secondary_bounded = omega (arith, v.secondary_bounded, length-live s.futures s.secondary);
  tracked = λ k h. ground (arith, v.tracked k h, live-queued s.futures k s.secondary);
  served = ground (arith, v.served, live_empty s.futures s.secondary);
  owned = v.owned;
  quiet = ground (arith, v.quiet, live_empty s.futures s.secondary);
}

enqueue-IsValid :
    (p : Priority) (q : List Call) (now : ℕ) (s : AsrScheduler)
    → s.closed ≡ false
    → length q < limit_of p s
    → IsValid (set_queue p q s)
    → IsValid (enqueue p q now s)
unfolding enqueue set_queue limit_of is_tracked has_waiting
enqueue-IsValid first q now s e l v = record {
  primary_bounded = ground (arith, l, length-append q (new ∷ []));
  secondary_bounded = v.secondary_bounded;
  tracked = λ k h. ground (arith, h, v.tracked k, is_queued-append k q new);
  served = refl;
  owned = refl;
  quiet = ground (arith, e);
}
  where
    new : Call
    new = record { future = s.next_future; queued_at = now }
enqueue-IsValid second q now s e l v = record {
  primary_bounded = v.primary_bounded;
  secondary_bounded = ground (arith, l, length-append q (new ∷ []));
  tracked = λ k h. ground (arith, h, v.tracked k, is_queued-append k q new);
  served = refl;
  owned = refl;
  quiet = ground (arith, e);
}
  where
    new : Call
    new = record { future = s.next_future; queued_at = now }

pub submit-IsValid :
    (p : Priority) (now : ℕ) (s : AsrScheduler) → IsValid s → IsValid (submit p now s).1
unfolding submit
submit-IsValid p now s v =
    if_ind (λ (r : Answer × AsrScheduler). IsValid r.1) s.closed _ _ (λ e. v)
      (λ e.
        if_ind (λ (r : Answer × AsrScheduler). IsValid r.1)
          (leb (limit_of p s) (length (filter (λ c. not (is_done s.futures c)) (queue_of p s)))) _ _
          (λ f. set_queue-IsValid p s v)
          (λ f.
            enqueue-IsValid p (filter (λ c. not (is_done s.futures c)) (queue_of p s)) now s e
              (ground (arith, f)) (set_queue-IsValid p s v)))
