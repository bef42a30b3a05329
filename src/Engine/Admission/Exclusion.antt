-- ===== src/Engine/Admission/Exclusion.antt =====
-- Who holds the provider at one time:
-- MyVote-Speaker-Update/src/myvote_engine/priority_translation.py.
use my_vote_server.Base.{
  ℕ, ◌+◌, ◌-◌, ◌≤◌, ◌<◌, ◌≡◌, refl, subst, Bool, true, false, some, arith, ltb,
}
use my_vote_server.Engine.Admission.{
  TranslationAdmission, make, arrive, must_wait, hold, try_acquire, release,
}

-- An admission with the numbers of its callers that are inside `acquire`.
pub record World : Type 0 where
  pub admission : TranslationAdmission
  pub waiting_primary : ℕ
  pub waiting_secondary : ℕ
  pub running_primary : ℕ
  pub running_secondary : ℕ

abbrev pub alone : TranslationAdmission → World
alone s = record {
  admission = s;
  waiting_primary = 0;
  waiting_secondary = 0;
  running_primary = 0;
  running_secondary = 0;
}

-- A caller arrives, tests the condition, or leaves, before it is admitted or after.
pub data Step (w : World) : World → Type 0 where
  arrives_primary :
      Step w
        (record w { admission = arrive false w.admission; waiting_primary = w.waiting_primary + 1 })
  arrives_secondary : Step w (record w {
    admission = arrive true w.admission;
    waiting_secondary = w.waiting_secondary + 1;
  })
  waits :
      (secondary pending : Bool)
      → (try_acquire secondary pending w.admission).0 ≡ false
      → Step w (record w { admission = (try_acquire secondary pending w.admission).1 })
  enters_primary :
      (pending : Bool)
      → 0 < w.waiting_primary
      → (try_acquire false pending w.admission).0 ≡ true
      → Step w (record w {
        admission = (try_acquire false pending w.admission).1;
        waiting_primary = w.waiting_primary - 1;
        running_primary = w.running_primary + 1;
      })
  enters_secondary :
      (pending : Bool)
      → 0 < w.waiting_secondary
      → (try_acquire true pending w.admission).0 ≡ true
      → Step w (record w {
        admission = (try_acquire true pending w.admission).1;
        waiting_secondary = w.waiting_secondary - 1;
        running_secondary = w.running_secondary + 1;
      })
  gives_up_primary :
      0 < w.waiting_primary
      → Step w (record w {
        admission = release false false w.admission;
        waiting_primary = w.waiting_primary - 1;
      })
  gives_up_secondary :
      0 < w.waiting_secondary
      → Step w (record w {
        admission = release true false w.admission;
        waiting_secondary = w.waiting_secondary - 1;
      })
  ends_primary :
      0 < w.running_primary
      → Step w (record w {
        admission = release false true w.admission;
        running_primary = w.running_primary - 1;
      })
  ends_secondary :
      0 < w.running_secondary
      → Step w (record w {
        admission = release true true w.admission;
        running_secondary = w.running_secondary - 1;
      })

pub data Reach (w : World) : World → Type 0 where
  here : Reach w w
  next : {v u : World} → Reach w v → Step v u → Reach w u

pub record IsExclusive (w : World) : Type 0 where
  pub counted : w.admission.busy ≡ w.running_primary + w.running_secondary
  pub waiters_counted : w.admission.primary_waiters ≡ w.waiting_primary + w.running_primary
  pub flagged : w.admission.secondary_busy ≡ ltb 0 w.running_secondary
  pub one_secondary : w.running_secondary ≤ 1
  pub bounded : w.running_primary ≤ w.admission.max_primary
  pub apart : 0 < w.running_secondary → w.running_primary ≡ 0

Step-IsExclusive : {w u : World} → IsExclusive w → Step w u → IsExclusive u
unfolding arrive must_wait hold try_acquire release
Step-IsExclusive v arrives_primary = record {
  counted = v.counted;
  waiters_counted = omega (arith, v.waiters_counted);
  flagged = v.flagged;
  one_secondary = v.one_secondary;
  bounded = v.bounded;
  apart = v.apart;
}
Step-IsExclusive v arrives_secondary = record {
  counted = v.counted;
  waiters_counted = v.waiters_counted;
  flagged = v.flagged;
  one_secondary = v.one_secondary;
  bounded = v.bounded;
  apart = v.apart;
}
Step-IsExclusive v (waits secondary pending h) = record {
  counted = ground (arith, v.counted, h);
  waiters_counted = ground (arith, v.waiters_counted, h);
  flagged = ground (arith, v.flagged, h);
  one_secondary = v.one_secondary;
  bounded = ground (arith, v.bounded, h);
  apart = v.apart;
}
Step-IsExclusive v (enters_primary pending p h) = record {
  counted = ground (arith, v.counted, h);
  waiters_counted = ground (arith, v.waiters_counted, h, p);
  flagged = ground (arith, v.flagged, h);
  one_secondary = v.one_secondary;
  bounded = ground (arith, v.bounded, v.counted, h);
  apart = λ r. ground (arith, v.flagged, h, r);
}
Step-IsExclusive v (enters_secondary pending p h) = record {
  counted = ground (arith, v.counted, h);
  waiters_counted = ground (arith, v.waiters_counted, h);
  flagged = ground (arith, h);
  one_secondary = ground (arith, v.counted, h);
  bounded = ground (arith, v.bounded, h);
  apart = λ r. ground (arith, v.counted, h);
}
Step-IsExclusive v (gives_up_primary p) = record {
  counted = v.counted;
  waiters_counted = omega (arith, v.waiters_counted, p);
  flagged = v.flagged;
  one_secondary = v.one_secondary;
  bounded = v.bounded;
  apart = v.apart;
}
Step-IsExclusive v (gives_up_secondary p) = record {
  counted = v.counted;
  waiters_counted = v.waiters_counted;
  flagged = v.flagged;
  one_secondary = v.one_secondary;
  bounded = v.bounded;
  apart = v.apart;
}
Step-IsExclusive v (ends_primary p) = record {
  counted = omega (arith, v.counted, p);
  waiters_counted = omega (arith, v.waiters_counted, p);
  flagged = v.flagged;
  one_secondary = v.one_secondary;
  bounded = omega (arith, v.bounded);
  apart = λ r. omega (arith, v.apart r);
}
Step-IsExclusive v (ends_secondary p) = record {
  counted = omega (arith, v.counted, p);
  waiters_counted = v.waiters_counted;
  flagged = ground (arith, v.one_secondary, p);
  one_secondary = omega (arith, v.one_secondary);
  bounded = v.bounded;
  apart = λ r. absurd (omega (arith, v.one_secondary, r));
}

Reach-IsExclusive : {w u : World} → IsExclusive w → Reach w u → IsExclusive u
Reach-IsExclusive v here = v
Reach-IsExclusive v (next r s) = Step-IsExclusive (Reach-IsExclusive v r) s

make-IsExclusive :
    (max_primary : ℕ) (s : TranslationAdmission) → make max_primary ≡ some s → IsExclusive (alone s)
unfolding make
make-IsExclusive max_primary s e =
    subst (λ a. IsExclusive (alone a)) {x = fresh} {y = s} (ground (arith, e))
      (record {
        counted = refl;
        waiters_counted = refl;
        flagged = refl;
        one_secondary = omega arith;
        bounded = omega arith;
        apart = λ r. refl;
      })
  where
    fresh : TranslationAdmission
    fresh = record {
      max_primary = max_primary;
      busy = 0;
      secondary_busy = false;
      primary_waiters = 0;
      changed = false;
      secondary_calls = 0;
      primary_calls = 0;
    }

-- However callers arrive, wait, are cancelled, run and end, from a new admission on: at most
-- max_primary live requests run, at most one correction does, and then no live request; and busy,
-- secondary_busy and primary_waiters say how many there are, so that no slot is ever lost.
pub make-Reach-IsExclusive :
    (max_primary : ℕ) (s : TranslationAdmission) (w : World)
    → make max_primary ≡ some s
    → Reach (alone s) w
    → IsExclusive w
make-Reach-IsExclusive max_primary s w e r = Reach-IsExclusive (make-IsExclusive max_primary s e) r
