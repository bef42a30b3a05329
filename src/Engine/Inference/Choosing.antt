-- ===== src/Engine/Inference/Choosing.antt =====
-- Which call AsrInferenceScheduler runs next:
-- MyVote-Speaker-Update/src/myvote_engine/inference_scheduler.py.
use my_vote_server.Base.{
  ℕ, ◌+◌, ◌-◌, ◌<◌, ◌≡◌, refl, sym, subst, inl, inr, true, false, not, List, [], ◌∷◌, arith, leb,
  ◌==◌, if◌then◌else◌, ==_refl, Bool-cases, if_ind, any, filter, Dict,
}
use my_vote_server.Engine.Inference.{
  Outcome, raised, expired, Call, AsrScheduler, is_done, settle, first, second, prune_primary,
  Choice, starts, waits, finishes, Admission, admits, refuses, raises, next_secondary, choose_from,
  choose,
}

-- The calls of a queue that are not answered, in order.
unfoldable pub live : Dict Outcome → List Call → List Call
unfolding is_done
live futures q = filter (λ c. not (is_done futures c)) q

-- What the choice of the loop has to satisfy. A primary call is the oldest that is not answered; and
-- only when there is none of them does the loop look at a secondary call, which it starts when it
-- waited less than its budget and is admitted, and waits for when it is refused.
unfoldable pub IsChosen : (Call → ℕ) → (Call → Admission) → AsrScheduler → Choice → Type 0
IsChosen now admission s (starts first c) =
    (rest : List Call) × (live s.futures s.primary ≡ c ∷ rest)
IsChosen now admission s (starts second c) =
    (live s.futures s.primary ≡ [])
    × (now c - c.queued_at < s.secondary_max_wait)
    × (admission c ≡ admits)
    × (any (λ d. d.future == c.future) s.secondary ≡ true)
IsChosen now admission s waits =
    (live s.futures s.primary ≡ [])
    × ((c : Call) × (now c - c.queued_at < s.secondary_max_wait)
        × (admission c ≡ refuses)
        × (any (λ d. d.future == c.future) s.secondary ≡ true))
IsChosen now admission s finishes = live s.futures s.primary ≡ []

-- A choice among secondary calls.
unfoldable IsSecondary : (Call → ℕ) → (Call → Admission) → ℕ → List Call → Choice → Type 0
IsSecondary now admission most q (starts first c) = ⊥
IsSecondary now admission most q (starts second c) =
    (now c - c.queued_at < most)
    × (admission c ≡ admits)
    × (any (λ d. d.future == c.future) q ≡ true)
IsSecondary now admission most q waits =
    (c : Call) × (now c - c.queued_at < most)
    × (admission c ≡ refuses)
    × (any (λ d. d.future == c.future) q ≡ true)
IsSecondary now admission most q finishes = Unit

IsSecondary-there :
    (now : Call → ℕ) (admission : Call → Admission) (most : ℕ) (d : Call) (q : List Call)
    (r : Choice)
    → IsSecondary now admission most q r
    → IsSecondary now admission most (d ∷ q) r
unfolding IsSecondary
IsSecondary-there now admission most d q (starts first c) h = h
IsSecondary-there now admission most d q (starts second c) h = (h.0, h.1, ground (arith, h.2))
IsSecondary-there now admission most d q waits h = (h.0, h.1, h.2, ground (arith, h.3))
IsSecondary-there now admission most d q finishes h = tt

next_secondary-IsSecondary :
    (now : Call → ℕ) (admission : Call → Admission) (cs : List Call) (s : AsrScheduler)
    → IsSecondary now admission s.secondary_max_wait cs (next_secondary now admission cs s).0
unfolding next_secondary IsSecondary
next_secondary-IsSecondary now admission [] s = tt
next_secondary-IsSecondary now admission (c ∷ cs) s =
    let rest : (t : AsrScheduler)
        → t.secondary_max_wait ≡ s.secondary_max_wait
        → Fine (next_secondary now admission cs t) =
      λ t e.
        IsSecondary-there now admission s.secondary_max_wait c cs
          (next_secondary now admission cs t).0
          (subst (λ m. IsSecondary now admission m cs (next_secondary now admission cs t).0) e
            (next_secondary-IsSecondary now admission cs t)) in
    if_ind Fine (is_done s.futures c) _ _
      (λ d. rest (record s { cancelled_queued = s.cancelled_queued + 1 }) refl)
      (λ d.
        if_ind Fine (leb s.secondary_max_wait (now c - c.queued_at)) _ _
          (λ f.
            rest
              (record s {
                secondary_admission_timeouts = s.secondary_admission_timeouts + 1;
                futures = settle c.future expired s.futures;
              })
              refl)
          (λ f.
            asked (admission c) refl (ground (arith, f))
              (λ e. rest (record s { futures = settle c.future (raised e) s.futures }) refl)))
  where
    Fine : Choice × AsrScheduler → Type 0
    Fine r = IsSecondary now admission s.secondary_max_wait (c ∷ cs) r.0

    asked :
        (a : Admission)
        → admission c ≡ a
        → now c - c.queued_at < s.secondary_max_wait
        → ((e : ℕ)
            → Fine (
                next_secondary now admission cs
                  (record s { futures = settle c.future (raised e) s.futures })))
        → Fine (elim a [
          | admits ↦ (starts second c, record s { secondary = cs })
          | refuses ↦ (waits, record s { secondary = c ∷ cs; changed = false })
          | raises e ↦
              next_secondary now admission cs
                (record s { futures = settle c.future (raised e) s.futures })
        ])
    asked admits h l rest = (l, h, ground (arith, ==_refl c.future))
    asked refuses h l rest = (c, l, h, ground (arith, ==_refl c.future))
    asked (raises e) h l rest = rest e

secondary-IsChosen :
    (now : Call → ℕ) (admission : Call → Admission) (s : AsrScheduler) (r : Choice)
    → live s.futures s.primary ≡ []
    → IsSecondary now admission s.secondary_max_wait s.secondary r
    → IsChosen now admission s r
unfolding IsSecondary IsChosen
secondary-IsChosen now admission s (starts first c) e h = absurd h
secondary-IsChosen now admission s (starts second c) e h = (e, h.0, h.1, h.2)
secondary-IsChosen now admission s waits e h = (e, h)
secondary-IsChosen now admission s finishes e h = e

-- A queue without the answered calls at its head.
unfoldable pruned_of : Dict Outcome → List Call → List Call
unfolding is_done
pruned_of futures [] = []
pruned_of futures (c ∷ cs) =
    let rest = pruned_of futures cs in if is_done futures c then rest else c ∷ cs

prune_primary-pruned_of :
    (q : List Call) (s : AsrScheduler)
    → (n : ℕ) × (prune_primary q s
        ≡ record s { primary = pruned_of s.futures q; cancelled_queued = n })
unfolding prune_primary pruned_of
prune_primary-pruned_of [] s = (s.cancelled_queued, refl)
prune_primary-pruned_of (c ∷ cs) s = elim (Bool-cases (is_done s.futures c)) [
  | inl d ↦
      let rest =
        prune_primary-pruned_of cs (record s { cancelled_queued = s.cancelled_queued + 1 }) in
      (rest.0, ground (arith, d, rest.1))
  | inr d ↦ (s.cancelled_queued, ground (arith, d))
]

unfoldable from_head : Dict Outcome → List Call → List Call
from_head futures [] = []
from_head futures (c ∷ cs) = c ∷ live futures cs

live-pruned_of :
    (futures : Dict Outcome) (q r : List Call)
    → pruned_of futures q ≡ r
    → live futures q ≡ from_head futures r
unfolding pruned_of live from_head
live-pruned_of futures [] [] e = refl
live-pruned_of futures [] (c ∷ cs) e = absurd (ground (arith, e))
live-pruned_of futures (d ∷ ds) r e = elim (Bool-cases (is_done futures d)) [
  | inl done ↦ ground (arith, done, live-pruned_of futures ds r (ground (arith, done, e)))
  | inr fresh ↦
      subst (λ (x : List Call). live futures (d ∷ ds) ≡ from_head futures x) {x = d ∷ ds} {y = r}
        (ground (arith, fresh, e)) (ground (arith, fresh))
]

choose_from-IsChosen :
    (now : Call → ℕ) (admission : Call → Admission) (s : AsrScheduler) (n : ℕ) (q : List Call)
    → pruned_of s.futures s.primary ≡ q
    → IsChosen now admission s
        (choose_from now admission q (record s { primary = q; cancelled_queued = n })).0
unfolding choose_from IsChosen from_head
choose_from-IsChosen now admission s n [] e =
    secondary-IsChosen now admission s
      (next_secondary now admission s.secondary (record s { primary = []; cancelled_queued = n })).0
      (live-pruned_of s.futures s.primary [] e)
      (next_secondary-IsSecondary now admission s.secondary
        (record s { primary = []; cancelled_queued = n }))
choose_from-IsChosen now admission s n (c ∷ cs) e =
    (live s.futures cs, live-pruned_of s.futures s.primary (c ∷ cs) e)

-- The loop starts the oldest primary call that is not answered; only when there is none does it
-- start a secondary call, one that waited less than its budget and is admitted; it waits only for a
-- secondary call that is refused and waited less than its budget; and it ends only when no primary
-- call is left that is not answered.
pub choose-IsChosen :
    (now : Call → ℕ) (admission : Call → Admission) (s : AsrScheduler)
    → IsChosen now admission s (choose now admission s).0
unfolding choose
choose-IsChosen now admission s =
    let shape = prune_primary-pruned_of s.primary s in
    subst (λ (p : AsrScheduler). IsChosen now admission s (choose_from now admission p.primary p).0)
      (sym shape.1)
      (choose_from-IsChosen now admission s shape.0 (pruned_of s.futures s.primary) refl)
