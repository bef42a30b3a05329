-- ===== src/Translation/Scheduler/Pool/Working.antt =====
-- What each worker of app/translation/scheduler.py holds, and what one comes back with from `_take`.
use my_vote_server.Translation.Scheduler.Pool.{Pool, works_on}
use my_vote_server.Base.{
  ℕ, ◌+◌, ◌≤◌, ◌<◌, ◌≡◌, refl, sym, ap, subst, ◌∙◌, ◌≢◌, ◌⊎◌, inl, inr, false, none, some, List, [],
  ◌∷◌, ◌++◌, arith, if◌then◌else◌, ==_refl, ==_ne, if_ind, length, All, All-append, All-parts,
  remove, get, put, pop, has, get-put, get-pop, length-put,
}
use my_vote_server.Translation.Scheduler.{
  Entry, absent, Active, Scheduler, queue_of, Taken, takes, activate, take_from, take,
}
use my_vote_server.Translation.Scheduler.Valid.{IsValid, take-IsValid}
use my_vote_server.Translation.Scheduler.Keeping.{ident_of, Keeps, same-Keeps}

abbrev pub Apart : List (ℕ × ℕ) → Type 0
Apart [] = Unit
Apart (h ∷ hs) = All (λ g. g.0 ≢ h.0) hs × Apart hs

pub Apart-without :
    (front : List (ℕ × ℕ)) (h : ℕ × ℕ) (back : List (ℕ × ℕ))
    → Apart (front ++ h ∷ back)
    → Apart (front ++ back) × All (λ g. g.0 ≢ h.0) (front ++ back)
Apart-without [] h back a = (a.1, a.0)
Apart-without (f ∷ front) h back a =
    let (before, rest) = All-parts (λ g. g.0 ≢ f.0) front (h ∷ back) a.0 in
    let (apart, others) = Apart-without front h back a.1 in
    ((All-append (λ g. g.0 ≢ f.0) front back before rest.1, apart), ((λ e. rest.0 (sym e)), others))

-- A worker's attempt is the active one of its session.
abbrev pub IsHeld : Scheduler → ℕ × ℕ → Type 0
IsHeld s h = ident_of (get h.0 s.active) ≡ some h.1

pub record IsStaffed (p : Pool) : Type 0 where
  pub valid : IsValid p.scheduler
  pub counted : p.idle + length p.holds ≡ p.scheduler.worker_count
  pub enough : length p.scheduler.active ≤ length p.holds
  pub held : All (IsHeld p.scheduler) p.holds
  pub apart : Apart p.holds

All-map :
    (P Q : ℕ × ℕ → Type 0) (hs : List (ℕ × ℕ)) → ((h : ℕ × ℕ) → P h → Q h) → All P hs → All Q hs
All-map P Q [] f a = tt
All-map P Q (h ∷ hs) f a = (f h a.0, All-map P Q hs f a.1)

-- A call that keeps the active attempts.
pub call-IsStaffed :
    (p : Pool) (s : Scheduler)
    → IsStaffed p
    → IsValid s
    → Keeps p.scheduler s
    → IsStaffed (record p { scheduler = s })
call-IsStaffed p s v valid k = record {
  valid = valid;
  counted = v.counted ∙ sym k.workers;
  enough = omega (arith, k.fewer, v.enough);
  held = All-map (IsHeld p.scheduler) (IsHeld s) p.holds (λ h e. k.same h.0 ∙ e) v.held;
  apart = v.apart;
}

-- What a worker comes back with: nothing, or a new attempt of a session that has none.
Took : Scheduler → Taken × Scheduler → Type 0
Took s r =
    (((p : Pool) → works_on r.0 p ≡ p) × Keeps s r.1)
    ⊎ ((sid : ℕ) × (a : Active) × (r.0 ≡ takes sid a)
        × (has sid s.active ≡ false)
        × (r.1.active ≡ put sid a s.active)
        × (r.1.worker_count ≡ s.worker_count))

take_ready-Took :
    (sid : ℕ) (ready : List ℕ) (s t : Scheduler) (q : List Entry)
    → t.active ≡ s.active
    → t.worker_count ≡ s.worker_count
    → queue_of sid t ≡ q
    → Took s (take_from ready (record t { ready = ready; ready_set = remove sid t.ready_set }))
    → Took s (take_from (sid ∷ ready) t)
unfolding take_from activate Took
take_ready-Took sid ready s t [] active workers e rest = rw (e, take_from) rest
take_ready-Took sid ready s t (x ∷ xs) active workers e rest =
    rw (e, take_from)
      (if_ind (Took s) (has sid t.active) _ _ (λ _. rest)
        (λ idle.
          let a : Active = record {
            ident = t.next_ident;
            entry = x;
            task = absent;
            stale = false;
          } in
          inr (sid, a, refl, sym (ap (has sid) active) ∙ idle, ap (put sid a) active, workers)))

take_from-Took :
    (ready : List ℕ) (s t : Scheduler)
    → t.active ≡ s.active
    → t.worker_count ≡ s.worker_count
    → Took s (take_from ready t)
unfolding take_from Took works_on
take_from-Took [] s t active workers = inl ((λ p. refl), same-Keeps s _ active workers)
take_from-Took (sid ∷ ready) s t active workers =
    take_ready-Took sid ready s t (queue_of sid t) active workers refl (
      take_from-Took ready s (record t { ready = ready; ready_set = remove sid t.ready_set }) active
        workers)

take-Took : (s : Scheduler) → Took s (take s)
unfolding take Took works_on
take-Took s =
    if_ind (Took s) s.closing _ _ (λ _. inl ((λ p. refl), same-Keeps s s refl refl))
      (λ _. take_from-Took s.ready s s refl refl)

-- A session without an active entry has no worker.
unheld :
    (s : Scheduler) (sid : ℕ) (hs : List (ℕ × ℕ))
    → has sid s.active ≡ false
    → All (IsHeld s) hs
    → All (λ g. g.0 ≢ sid) hs
unfolding has ident_of
unheld s sid [] free a = tt
unheld s sid ((k, i) ∷ hs) free a = (
  (λ same. not_there (subst (λ j. ident_of (get j s.active) ≡ some i) same a.0)),
  unheld s sid hs free a.1,
)
  where
    not_there : ident_of (get sid s.active) ≡ some i → ⊥
    not_there h = ground (arith, free, h)

kept_put :
    (s : Scheduler) (sid : ℕ) (a : Active) (t : Scheduler) (hs : List (ℕ × ℕ))
    → t.active ≡ put sid a s.active
    → All (λ g. g.0 ≢ sid) hs
    → All (IsHeld s) hs
    → All (IsHeld t) hs
kept_put s sid a t [] active apart held = tt
kept_put s sid a t ((k, i) ∷ hs) active apart held = (
  ap (λ d. ident_of (get k d)) active
      ∙ ap ident_of (get-put sid k a s.active)
      ∙ ap (λ c. ident_of (if c then some a else get k s.active))
          (==_ne sid k (λ e. apart.0 (sym e)))
      ∙ held.0,
  kept_put s sid a t hs active apart.1 held.1,
)

pub kept_pop :
    (s : Scheduler) (sid : ℕ) (t : Scheduler) (hs : List (ℕ × ℕ))
    → t.active ≡ pop sid s.active
    → All (λ g. g.0 ≢ sid) hs
    → All (IsHeld s) hs
    → All (IsHeld t) hs
kept_pop s sid t [] active apart held = tt
kept_pop s sid t ((k, i) ∷ hs) active apart held = (
  ap (λ d. ident_of (get k d)) active
      ∙ ap ident_of (get-pop sid k s.active)
      ∙ ap (λ c. ident_of (if c then none else get k s.active)) (==_ne sid k (λ e. apart.0 (sym e)))
      ∙ held.0,
  kept_pop s sid t hs active apart.1 held.1,
)

taken-IsStaffed :
    (p : Pool) (sid : ℕ) (a : Active)
    → 0 < p.idle
    → IsStaffed p
    → has sid p.scheduler.active ≡ false
    → (take p.scheduler).1.active ≡ put sid a p.scheduler.active
    → (take p.scheduler).1.worker_count ≡ p.scheduler.worker_count
    → IsStaffed (works_on (takes sid a) (record p { scheduler = (take p.scheduler).1 }))
unfolding works_on ident_of
taken-IsStaffed p sid a idle v free active workers = record {
  valid = take-IsValid p.scheduler v.valid;
  counted = omega (arith, v.counted, workers, idle);
  enough = rw active (ground (arith, length-put sid a p.scheduler.active, free, v.enough));
  held = (
    ap (λ d. ident_of (get sid d)) active
        ∙ ap ident_of (get-put sid sid a p.scheduler.active)
        ∙ ap (λ c. ident_of (if c then some a else get sid p.scheduler.active)) (==_refl sid),
    kept_put p.scheduler sid a (take p.scheduler).1 p.holds active others v.held,
  );
  apart = (others, v.apart);
}
  where
    others : All (λ g. g.0 ≢ sid) p.holds
    others = unheld p.scheduler sid p.holds free v.held

pub works-IsStaffed :
    (p : Pool)
    → 0 < p.idle
    → IsStaffed p
    → IsStaffed (works_on (take p.scheduler).0 (record p { scheduler = (take p.scheduler).1 }))
unfolding Took works_on
works-IsStaffed p idle v = elim (take-Took p.scheduler) [
  | inl (nothing, k) ↦
      subst IsStaffed (sym (nothing (record p { scheduler = (take p.scheduler).1 })))
        (call-IsStaffed p (take p.scheduler).1 v (take-IsValid p.scheduler v.valid) k)
  | inr (sid, a, e, free, active, workers) ↦
      subst (λ r. IsStaffed (works_on r (record p { scheduler = (take p.scheduler).1 }))) (sym e)
        (taken-IsStaffed p sid a idle v free active workers)
]
