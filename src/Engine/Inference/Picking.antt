-- ===== src/Engine/Inference/Picking.antt =====
-- The loop of AsrInferenceScheduler in
-- MyVote-Speaker-Update/src/myvote_engine/inference_scheduler.py picks the next call.
use my_vote_server.Base.{
  ℕ, ◌+◌, ◌-◌, ◌≡◌, refl, ap, subst, true, false, none, some, List, [], ◌∷◌, arith, leb, ◌==◌,
  ==_iff, ==_refl, if_ind, is_some, is_empty, Dict, has,
}
use my_vote_server.Engine.Inference.{
  Outcome, raised, expired, Call, AsrScheduler, is_done, settle, first, second, prune_primary,
  prune_secondary, Choice, starts, Admission, admits, refuses, raises, next_secondary, choose_from,
  choose, act, run_next, complete,
}
use my_vote_server.Engine.Inference.Bookkeeping.{
  is_queued, is_active, is_tracked, has_waiting, IsValid, has-settle,
}

-- A scheduler whose loop is about to choose.
record IsIdle (s : AsrScheduler) : Type 0 where
  valid : IsValid s
  works : s.worker ≡ true
  free : s.active ≡ none

-- A call at the head of the primary queue that is done may be dropped.
drop_primary-IsIdle :
    (c : Call) (cs : List Call) (s : AsrScheduler) (n : ℕ)
    → is_done s.futures c ≡ true
    → IsIdle (record s { primary = c ∷ cs })
    → IsIdle (record s { primary = cs; cancelled_queued = n })
unfolding is_done is_tracked is_queued has_waiting
drop_primary-IsIdle c cs s n d i = record {
  valid = record {
    primary_bounded = omega (arith, i.valid.primary_bounded);
    secondary_bounded = i.valid.secondary_bounded;
    tracked = λ k h. ground (arith, d, i.valid.tracked k h, same_future k);
    served = ground (arith, i.works);
    owned = i.valid.owned;
    quiet = ground (arith, i.valid.quiet);
  };
  works = i.works;
  free = i.free;
}
  where
    same_future : (k : ℕ) → (c.future == k) ≡ true → has c.future s.futures ≡ has k s.futures
    same_future k e = ap (λ i. has i s.futures) ((==_iff c.future k).0 e)

prune_primary-IsIdle :
    (cs : List Call) (s : AsrScheduler)
    → IsIdle (record s { primary = cs })
    → IsIdle (prune_primary cs s)
unfolding prune_primary
prune_primary-IsIdle [] s i = i
prune_primary-IsIdle (c ∷ cs) s i =
    let rest = prune_primary-IsIdle cs (record s { cancelled_queued = s.cancelled_queued + 1 }) in
    if_ind IsIdle (is_done s.futures c) _ _
      (λ d. rest (drop_primary-IsIdle c cs s (s.cancelled_queued + 1) d i)) (λ d. i)

-- A secondary call at the head of its queue that is done may be dropped.
drop_secondary-IsValid :
    (c : Call) (cs : List Call) (s : AsrScheduler) (futures : Dict Outcome) (n m : ℕ)
    → has c.future futures ≡ true
    → ((k : ℕ) → has k s.futures ≡ true → has k futures ≡ true)
    → IsValid (record s { secondary = c ∷ cs })
    → IsValid (record s {
      secondary = cs;
      futures = futures;
      cancelled_queued = n;
      secondary_admission_timeouts = m;
    })
unfolding is_tracked is_queued has_waiting
drop_secondary-IsValid c cs s futures n m d more v = record {
  primary_bounded = v.primary_bounded;
  secondary_bounded = omega (arith, v.secondary_bounded);
  tracked = λ k h. ground (arith, d, v.tracked k h, more k, same_future k);
  served = ground (arith, v.served);
  owned = v.owned;
  quiet = ground (arith, v.quiet);
}
  where
    same_future : (k : ℕ) → (c.future == k) ≡ true → has c.future futures ≡ has k futures
    same_future k e = ap (λ i. has i futures) ((==_iff c.future k).0 e)

drop_secondary-IsIdle :
    (c : Call) (cs : List Call) (s : AsrScheduler) (futures : Dict Outcome) (n m : ℕ)
    → has c.future futures ≡ true
    → ((k : ℕ) → has k s.futures ≡ true → has k futures ≡ true)
    → IsIdle (record s { secondary = c ∷ cs })
    → IsIdle (record s {
      secondary = cs;
      futures = futures;
      cancelled_queued = n;
      secondary_admission_timeouts = m;
    })
drop_secondary-IsIdle c cs s futures n m d more i = record {
  valid = drop_secondary-IsValid c cs s futures n m d more i.valid;
  works = i.works;
  free = i.free;
}

settle-more :
    (j : ℕ) (o : Outcome) (futures : Dict Outcome) (k : ℕ)
    → has k futures ≡ true
    → has k (settle j o futures) ≡ true
settle-more j o futures k h = ground (arith, has-settle j k o futures, h)

settle-there : (j : ℕ) (o : Outcome) (futures : Dict Outcome) → has j (settle j o futures) ≡ true
settle-there j o futures = ground (arith, has-settle j j o futures, ==_refl j)

start_first-IsValid :
    (c : Call) (cs : List Call) (s : AsrScheduler)
    → IsIdle (record s { primary = c ∷ cs })
    → IsValid (act (starts first c) (record s { primary = cs }))
unfolding act is_tracked is_queued is_active has_waiting
start_first-IsValid c cs s i = record {
  primary_bounded = omega (arith, i.valid.primary_bounded);
  secondary_bounded = i.valid.secondary_bounded;
  tracked = λ k h. ground (arith, i.valid.tracked k h, ap (is_active k) i.free);
  served = ground (arith, i.works);
  owned = ground (arith, i.works);
  quiet = ground (arith, i.valid.quiet);
}

start_second-IsValid :
    (c : Call) (cs : List Call) (s : AsrScheduler)
    → IsIdle (record s { secondary = c ∷ cs })
    → IsValid (act (starts second c) (record s { secondary = cs }))
unfolding act is_tracked is_queued is_active has_waiting
start_second-IsValid c cs s i = record {
  primary_bounded = i.valid.primary_bounded;
  secondary_bounded = omega (arith, i.valid.secondary_bounded);
  tracked = λ k h. ground (arith, i.valid.tracked k h, ap (is_active k) i.free);
  served = ground (arith, i.works);
  owned = ground (arith, i.works);
  quiet = ground (arith, i.valid.quiet);
}

prune_secondary-IsValid :
    (c : Call) (cs : List Call) (s : AsrScheduler)
    → IsValid (act (starts first c) (record s { secondary = cs }))
    → IsValid (act (starts first c) (prune_secondary cs s))
unfolding act prune_secondary is_done
prune_secondary-IsValid c [] s v = v
prune_secondary-IsValid c (d ∷ ds) s v =
    let rest =
      prune_secondary-IsValid c ds (record s { cancelled_queued = s.cancelled_queued + 1 }) in
    if_ind (λ t. IsValid (act (starts first c) t)) (is_done s.futures d) _ _
      (λ e. rest (
        drop_secondary-IsValid d ds (act (starts first c) s) s.futures (s.cancelled_queued + 1)
          s.secondary_admission_timeouts e (λ k h. h) v))
      (λ e. v)

admission_ind {ℓ κ} :
    {A : Type ℓ} (P : A → Type κ) (a : Admission) (x y : A) (z : ℕ → A)
    → P x
    → P y
    → ((e : ℕ) → P (z e))
    → P (elim a [ admits ↦ x | refuses ↦ y | raises e ↦ z e ])
admission_ind P admits x y z hx hy hz = hx
admission_ind P refuses x y z hx hy hz = hy
admission_ind P (raises e) x y z hx hy hz = hz e

-- The choice among the secondary calls, when no primary one waits.
next_secondary-IsValid :
    (now : Call → ℕ) (admission : Call → Admission) (cs : List Call) (s : AsrScheduler)
    → is_empty s.primary ≡ true
    → IsIdle (record s { secondary = cs })
    → IsValid (act (next_secondary now admission cs s).0 (next_secondary now admission cs s).1)
unfolding act next_secondary is_done has_waiting is_tracked
next_secondary-IsValid now admission [] s e i = record {
  primary_bounded = i.valid.primary_bounded;
  secondary_bounded = i.valid.secondary_bounded;
  tracked = i.valid.tracked;
  served = ground (arith, e);
  owned = ground (arith, i.free);
  quiet = i.valid.quiet;
}
next_secondary-IsValid now admission (c ∷ cs) s e i =
    let rest = next_secondary-IsValid now admission cs in
    if_ind Fine (is_done s.futures c) _ _
      (λ d.
        rest (record s { cancelled_queued = s.cancelled_queued + 1 }) e
          (drop_secondary-IsIdle c cs s s.futures (s.cancelled_queued + 1)
            s.secondary_admission_timeouts d (λ k h. h) i))
      (λ d.
        if_ind Fine (leb s.secondary_max_wait (now c - c.queued_at)) _ _
          (λ f.
            rest
              (record s {
                secondary_admission_timeouts = s.secondary_admission_timeouts + 1;
                futures = settle c.future expired s.futures;
              })
              e
              (drop_secondary-IsIdle c cs s (settle c.future expired s.futures) s.cancelled_queued
                (s.secondary_admission_timeouts + 1) (settle-there c.future expired s.futures)
                (settle-more c.future expired s.futures) i))
          (λ f.
            admission_ind Fine (admission c) _ _ _ (start_second-IsValid c cs s i) (waiting i.valid)
              (λ x.
                rest (record s { futures = settle c.future (raised x) s.futures }) e
                  (drop_secondary-IsIdle c cs s (settle c.future (raised x) s.futures)
                    s.cancelled_queued s.secondary_admission_timeouts
                    (settle-there c.future (raised x) s.futures)
                    (settle-more c.future (raised x) s.futures) i))))
  where
    Fine : Choice × AsrScheduler → Type 0
    Fine r = IsValid (act r.0 r.1)

    waiting :
        IsValid (record s { secondary = c ∷ cs })
        → IsValid (record s { secondary = c ∷ cs; changed = false })
    waiting v = record {
      primary_bounded = v.primary_bounded;
      secondary_bounded = v.secondary_bounded;
      tracked = v.tracked;
      served = v.served;
      owned = v.owned;
      quiet = v.quiet;
    }

choose_from-IsValid :
    (now : Call → ℕ) (admission : Call → Admission) (q : List Call) (s : AsrScheduler)
    → s.primary ≡ q
    → IsIdle s
    → IsValid (act (choose_from now admission q s).0 (choose_from now admission q s).1)
unfolding choose_from
choose_from-IsValid now admission [] s e i =
    next_secondary-IsValid now admission s.secondary s (ap is_empty e) i
choose_from-IsValid now admission (c ∷ cs) s e i =
    prune_secondary-IsValid c s.secondary (record s { primary = cs })
      (start_first-IsValid c cs s (subst (λ q. IsIdle (record s { primary = q })) e i))

pub run_next-IsValid :
    (now : Call → ℕ) (admission : Call → Admission) (s : AsrScheduler)
    → IsValid s
    → s.worker ≡ true
    → s.active ≡ none
    → IsValid (run_next now admission s)
unfolding run_next choose
run_next-IsValid now admission s v w f =
    choose_from-IsValid now admission (prune_primary s.primary s).primary
      (prune_primary s.primary s) refl
      (prune_primary-IsIdle s.primary s (record { valid = v; works = w; free = f }))

pub complete-IsValid :
    (now : Call → ℕ) (admission : Call → Admission) (c : Call) (o : Outcome) (s : AsrScheduler)
    → IsValid s
    → s.active ≡ some c
    → IsValid (complete now admission c o s)
unfolding complete is_tracked is_active has_waiting
complete-IsValid now admission c o s v a =
    run_next-IsValid now admission
      (record s { futures = settle c.future o s.futures; active = none })
      (record {
        primary_bounded = v.primary_bounded;
        secondary_bounded = v.secondary_bounded;
        tracked = λ k h.
            ground (arith, v.tracked k h, has-settle c.future k o s.futures, ap (is_active k) a);
        served = v.served;
        owned = ground arith;
        quiet = v.quiet;
      })
      (ground (arith, v.owned, ap is_some a)) refl
