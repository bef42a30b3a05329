-- ===== src/Session/Order.antt =====
-- At most one segment of a session of app/session/state.py is being translated, and identifiers
-- are not used twice.
use my_vote_server.Base.{
  ℕ, zero, suc, ◌≤◌, ◌≡◌, refl, sym, ap, subst, ◌∙◌, inl, inr, Bool, true, false, ◌||◌, Option,
  none, some, List, [], ◌∷◌, map, arith, ◌==◌, Bool-cases, if_ind, take, drop, All, contains,
  distinct,
}
use my_vote_server.Session.State.{running, Segment, Session, is_running}
use my_vote_server.Session.Dispatch.{first_segment, update_segment, set_status}
use my_vote_server.Session.Results.{is_active}
use my_vote_server.Session.Lifecycle.{requeue, segment_ids}
use my_vote_server.Session.Steady.{Follows, Steady, IsSame}

pub record IsOrderly {T : Type 0} (s : Session T) : Type 0 where
  pub follows : All (Follows s.active_segment) s.segments
  pub unique : distinct (segment_ids s.segments) ≡ true
  pub named : (k : ℕ) → contains k (segment_ids s.segments) ≡ true → k ≤ s.next_segment
  pub present :
      (k : ℕ) → is_active s.active_segment k ≡ true → contains k (segment_ids s.segments) ≡ true

pub Steady-IsOrderly : {T : Type 0} {s t : Session T} → Steady s t → IsOrderly s → IsOrderly t
Steady-IsOrderly p o = record {
  follows = p.still_follows o.follows;
  unique = rw p.same_ids o.unique;
  named = λ k h. rw p.same_next (o.named k (sym (ap (contains k) p.same_ids) ∙ h));
  present = λ k h. rw p.same_ids (o.present k (sym (ap (λ a. is_active a k) p.same_active) ∙ h));
}

-- The segment that `first_segment` finds.
pub first_segment-All {κ} :
    (P : Segment → Type κ) (p : Segment → Bool) (xs : List Segment) (x : Segment)
    → first_segment p xs ≡ some x
    → All P xs
    → P x
unfolding first_segment
first_segment-All P p [] x e h = ground arith
first_segment-All P p (y ∷ ys) x e h = elim (Bool-cases (p y)) [
  | inl t ↦ subst P (ground arith) h.0
  | inr f ↦ first_segment-All P p ys x (ground arith) h.1
]

pub first_segment_listed :
    (p : Segment → Bool) (xs : List Segment) (x : Segment)
    → first_segment p xs ≡ some x
    → contains x.segment_id (segment_ids xs) ≡ true
unfolding first_segment segment_ids
first_segment_listed p [] x e = ground arith
first_segment_listed p (y ∷ ys) x e = elim (Bool-cases (p y)) [
  | inl t ↦ ground arith
  | inr f ↦ ground (arith, first_segment_listed p ys x (ground arith))
]

pub first_segment_holds :
    (p : Segment → Bool) (xs : List Segment) (x : Segment)
    → first_segment p xs ≡ some x
    → p x ≡ true
unfolding first_segment
first_segment_holds p [] x e = ground arith
first_segment_holds p (y ∷ ys) x e = elim (Bool-cases (p y)) [
  | inl t ↦ ground arith
  | inr f ↦ first_segment_holds p ys x (ground arith)
]

-- The active segment stops.
pub update-stops :
    (sid : ℕ) (f : Segment → Segment) (xs : List Segment)
    → IsSame f
    → ((x : Segment) → is_running (f x).status ≡ false)
    → All (Follows (some sid)) xs
    → All (Follows none) (update_segment sid f xs)
unfolding update_segment IsSame Follows is_active
update-stops sid f [] same stops h = tt
update-stops sid f (x ∷ xs) same stops h =
    if_ind (All (Follows none)) (x.segment_id == sid) _ _
      (λ e. (stops x, update-stops sid f xs same stops h.1))
      (λ e. (h.0 ∙ ground arith, update-stops sid f xs same stops h.1))

-- A segment starts while none is active.
pub update-starts :
    (sid : ℕ) (xs : List Segment)
    → All (Follows none) xs
    → All (Follows (some sid)) (update_segment sid (set_status running) xs)
unfolding update_segment set_status Follows is_active
update-starts sid [] h = tt
update-starts sid (x ∷ xs) h =
    if_ind (All (Follows (some sid))) (x.segment_id == sid) _ _
      (λ e. (ground arith, update-starts sid xs h.1))
      (λ e. (h.0 ∙ ground arith, update-starts sid xs h.1))

pub requeue-stops : (a : Option ℕ) (xs : List Segment) → All (Follows none) (map requeue xs)
unfolding requeue set_status Follows is_active
requeue-stops a [] = tt
requeue-stops a (x ∷ xs) = (ground arith, requeue-stops a xs)

pub segment_ids-requeue : (xs : List Segment) → segment_ids (map requeue xs) ≡ segment_ids xs
unfolding requeue set_status segment_ids
segment_ids-requeue [] = refl
segment_ids-requeue (x ∷ xs) = ground (arith, segment_ids-requeue xs)

-- The segments in front of an index and the others.
pub contains-cut :
    (k n : ℕ) (xs : List Segment)
    → contains k (segment_ids xs)
      ≡ (contains k (segment_ids (take n xs)) || contains k (segment_ids (drop n xs)))
unfolding segment_ids
contains-cut k zero xs = refl
contains-cut k (suc n) [] = refl
contains-cut k (suc n) (x ∷ xs) = ground (arith, contains-cut k n xs)

pub distinct-take :
    (n : ℕ) (xs : List Segment)
    → distinct (segment_ids xs) ≡ true
    → distinct (segment_ids (take n xs)) ≡ true
unfolding segment_ids
distinct-take zero xs h = refl
distinct-take (suc n) [] h = refl
distinct-take (suc n) (x ∷ xs) h =
    ground (arith, distinct-take n xs, contains-cut x.segment_id n xs)

pub cut_apart :
    (k n : ℕ) (xs : List Segment)
    → distinct (segment_ids xs) ≡ true
    → contains k (segment_ids (drop n xs)) ≡ true
    → contains k (segment_ids (take n xs)) ≡ false
unfolding segment_ids
cut_apart k zero xs d h = refl
cut_apart k (suc n) [] d h = refl
cut_apart k (suc n) (x ∷ xs) d h = ground (arith, cut_apart k n xs, contains-cut x.segment_id n xs)

pub All-take {κ} : (P : Segment → Type κ) (n : ℕ) (xs : List Segment) → All P xs → All P (take n xs)
All-take P zero xs h = tt
All-take P (suc n) [] h = tt
All-take P (suc n) (x ∷ xs) h = (h.0, All-take P n xs h.1)

-- None of the segments is the active one.
pub absent-Follows :
    (k : ℕ) (xs : List Segment)
    → contains k (segment_ids xs) ≡ false
    → All (Follows (some k)) xs
    → All (Follows none) xs
unfolding segment_ids Follows is_active
absent-Follows k [] e h = tt
absent-Follows k (x ∷ xs) e h = (h.0 ∙ ground arith, absent-Follows k xs (ground arith) h.1)
