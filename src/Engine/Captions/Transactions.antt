-- ===== src/Engine/Captions/Transactions.antt =====
-- Groups that are held or applied keep a store of
-- MyVote-Speaker-Update/src/myvote_engine/captions.py sound, and let captions evolve.
use my_vote_server.Engine.Captions.Segments.{CaptionSegment}
use my_vote_server.Base.{
  ℕ, ◌≡◌, refl, sym, ap, subst, ◌∙◌, inl, inr, Bool, true, false, not, ◌&&◌, ◌||◌, Option, none,
  some, List, [], ◌∷◌, map, arith, ◌==◌, if◌then◌else◌, ==_iff, Bool-cases, any, filter, contains,
  contains-append, contains-remove, Dict, get, put, pop, has, keys, get-put, get-pop,
}
use my_vote_server.Engine.Captions.Groups.{CaptionGroupReplacement, child_ids}
use my_vote_server.Engine.Captions.Store.{CaptionStore, note}
use my_vote_server.Engine.Captions.Replacing.{
  old_held, current_ids, check_parents, validate_group, put_children, bury, put_parents, pop_all,
  put_all, release_group, hold_group, apply_group, Status, applied, held, stale, is_manual,
  replace_group, apply_held_group,
}
use my_vote_server.Engine.Captions.Evolution.{
  Evolves, Evolves-refl, edit-Evolves, Grows, Grows-refl, IsSound, Moves, Moves-refl,
}
use my_vote_server.Engine.Captions.Lineage.{
  get-put_children, has-put_children, IsKeyed, put_children-IsKeyed, Marked, put_parents-Marked,
  put_parents-IsKeyed, has-put_parents,
}

contains-keys : {V : Type 0} (k : ℕ) (d : Dict V) → contains k (keys d) ≡ has k d
unfolding keys has get
contains-keys k [] = refl
contains-keys k ((j, v) ∷ d) = ground (arith, contains-keys k d)

contains-filter :
    (k : ℕ) (p : ℕ → Bool) (xs : List ℕ) → contains k (filter p xs) ≡ (contains k xs && p k)
contains-filter k p [] = refl
contains-filter k p (x ∷ xs) = elim (Bool-cases (x == k)) [
  | inl same ↦ ground (arith, same, ap p ((==_iff x k).0 same), contains-filter k p xs)
  | inr other ↦ ground (arith, other, contains-filter k p xs)
]

contains-current_ids :
    (k : ℕ) (s : CaptionStore)
    → contains k (current_ids s)
      ≡ (has k s.segments || has k s.held_children && not (has k s.segments))
unfolding current_ids
contains-current_ids k s = ground (
  arith,
  contains-append k (keys s.segments)
      (filter (λ (j : ℕ). not (has j s.segments)) (keys s.held_children)),
  contains-filter k (λ (j : ℕ). not (has j s.segments)) (keys s.held_children),
  contains-keys k s.segments,
  contains-keys k s.held_children,
)

get-pop_all :
    (k : ℕ) (ks : List ℕ) (d : Dict ℕ)
    → get k (pop_all ks d) ≡ (if contains k ks then none else get k d)
unfolding pop_all
get-pop_all k [] d = refl
get-pop_all k (j ∷ ks) d = ground (arith, get-pop_all k ks (pop j d), get-pop j k d)

get-put_all :
    (k v : ℕ) (ks : List ℕ) (d : Dict ℕ)
    → get k (put_all v ks d) ≡ (if contains k ks then some v else get k d)
unfolding put_all
get-put_all k v [] d = refl
get-put_all k v (j ∷ ks) d = ground (arith, get-put_all k v ks (put j v d), get-put j k v d)

has_of_get : (k : ℕ) (d : Dict ℕ) (v : ℕ) → get k d ≡ some v → has k d ≡ true
unfolding has
has_of_get k d v e = ground (arith, e)

has-put_all :
    (k v : ℕ) (ks : List ℕ) (d : Dict ℕ)
    → has k (put_all v ks d) ≡ (if contains k ks then true else has k d)
unfolding has
has-put_all k v ks d = ground (arith, get-put_all k v ks d)

-- A group that the checks let pass; its children may reuse some identifiers.
record IsReady (g : CaptionGroupReplacement) (s : CaptionStore) : Type 0 where
  parents_stand : check_parents g s.segments g.parents ≡ some true
  -- A child that is there already is a held alternative of the group itself.
  children_fresh :
      (k : ℕ)
      → contains k (child_ids g) ≡ true
      → contains k (current_ids s) ≡ true
      → contains k (old_held g.group_id s) ≡ true

-- No child stands in the projection.
child-absent :
    (g : CaptionGroupReplacement) (s : CaptionStore) (k : ℕ)
    → IsSound s
    → IsReady g s
    → contains k (child_ids g) ≡ true
    → has k s.segments ≡ false
unfolding has
child-absent g s k v r h = elim (Bool-cases (has k s.segments)) [
  | inr f ↦ f
  | inl t ↦
      let own : get k s.held_children ≡ some g.group_id =
        v.indexed g.group_id k
          (r.children_fresh k h (ground (arith, t, contains-current_ids k s))) in
      let gone : has k s.segments ≡ false = v.apart k (ground (arith, own)) in
      absurd (ground (arith, t, gone))
]

-- The projection once the group is applied.
replaced : CaptionGroupReplacement → CaptionStore → Dict CaptionSegment
replaced g s = put_parents g.children s.segments g.parents (put_children g.children s.segments)

replaced-Grows :
    (g : CaptionGroupReplacement) (s : CaptionStore)
    → IsSound s
    → IsReady g s
    → Grows s.segments (replaced g s)
unfolding replaced Grows Marked bury has child_ids
replaced-Grows g s v r k x h = result (
    put_parents-Marked g g.children s.segments (put_children g.children s.segments) g.parents k x
      r.parents_stand h (inl (get-put_children k g.children s.segments other ∙ h)))
  where
    other : contains k (child_ids g) ≡ false
    other = elim (Bool-cases (contains k (child_ids g))) [
      | inr f ↦ f
      | inl t ↦ absurd (ground (arith, child-absent g s k v r t, h))
    ]

    result :
        Marked g.children k x (get k (replaced g s))
        → (y : CaptionSegment) × (get k (replaced g s) ≡ some y) × Evolves x y
    result (inl e) = (x, e, Evolves-refl x)
    result (inr (e, fresh)) = (
      bury k g.children x,
      e,
      edit-Evolves x (bury k g.children x) fresh refl refl refl refl refl refl (omega arith)
          (λ m. m),
    )

-- What is held once a group is free again was held before, for another group.
released :
    (g : CaptionGroupReplacement) (s : CaptionStore) (k : ℕ)
    → has k (release_group g.group_id s).held_children ≡ true
    → (has k s.held_children ≡ true) × (contains k (old_held g.group_id s) ≡ false)
unfolding release_group has
released g s k h = (
  ground (arith, h, get-pop_all k (old_held g.group_id s) s.held_children),
  ground (arith, h, get-pop_all k (old_held g.group_id s) s.held_children),
)

-- The alternatives of another group stay listed.
other-indexed :
    (g : CaptionGroupReplacement) (s : CaptionStore) (gid k : ℕ)
    → IsSound s
    → (g.group_id == gid) ≡ false
    → contains k (old_held gid s) ≡ true
    → get k (release_group g.group_id s).held_children ≡ some gid
unfolding release_group
other-indexed g s gid k v other h =
    get-pop_all k (old_held g.group_id s) s.held_children
    ∙ elim (Bool-cases (contains k (old_held g.group_id s))) [
      | inr f ↦ ground (arith, f, v.indexed gid k h)
      | inl t ↦ absurd (ground (arith, v.indexed gid k h, v.indexed g.group_id k t, other))
    ]

apply_group-Moves :
    (g : CaptionGroupReplacement) (s : CaptionStore)
    → IsSound s
    → IsReady g s
    → Moves s (apply_group g s)
unfolding apply_group note IsKeyed replaced release_group old_held child_ids
apply_group-Moves g s v r = record {
  sound = record {
    keyed =
        put_parents-IsKeyed g.children s.segments (put_children g.children s.segments) g.parents
          v.keyed (put_children-IsKeyed g.children s.segments v.keyed);
    apart = apart;
    indexed = indexed;
  };
  grows = replaced-Grows g s v r;
  generation_up = omega arith;
  revision_up = omega arith;
}
  where
    stranger :
        (k : ℕ)
        → has k s.held_children ≡ true
        → contains k (old_held g.group_id s) ≡ false
        → contains k (map (λ c. c.segment_id) g.children) ≡ false
    stranger k was_held not_own = elim (Bool-cases (contains k (child_ids g))) [
      | inr f ↦ f
      | inl t ↦ absurd (
          ground (
            arith,
            not_own,
            r.children_fresh k t (ground (arith, was_held, contains-current_ids k s)),
          ))
    ]

    apart :
        (k : ℕ)
        → has k (release_group g.group_id s).held_children ≡ true
        → has k (replaced g s) ≡ false
    apart k h =
        let (was_held, not_own) = released g s k h in
        let gone : has k s.segments ≡ false = v.apart k was_held in
        has-put_parents g.children s.segments (put_children g.children s.segments) g.parents k gone
        ∙ has-put_children k g.children s.segments
        ∙ ground (arith, gone, stranger k was_held not_own)

    indexed :
        (gid k : ℕ)
        → contains k (old_held gid (apply_group g s)) ≡ true
        → get k (release_group g.group_id s).held_children ≡ some gid
    indexed gid k h = elim (Bool-cases (g.group_id == gid)) [
      | inr other ↦ other-indexed g s gid k v other (
          ground (
            arith,
            other,
            h,
            contains-remove g.group_id gid s.held_groups,
            get-put g.group_id gid g s.groups,
          ))
      | inl same ↦ absurd (ground (arith, same, h, contains-remove g.group_id gid s.held_groups))
    ]

otherwise : (b : Bool) (x y : Option ℕ) → b ≡ false → (if b then x else y) ≡ y
otherwise b x y f = ground (arith, f)

-- A group is held: its children are new.
hold_group-Moves :
    (g : CaptionGroupReplacement) (s : CaptionStore)
    → IsSound s
    → ((k : ℕ) → contains k (child_ids g) ≡ true → contains k (current_ids s) ≡ false)
    → Moves s (hold_group g s)
unfolding hold_group note
hold_group-Moves g s v new = record {
  sound = record { keyed = v.keyed; apart = apart; indexed = indexed };
  grows = Grows-refl s.segments;
  generation_up = omega arith;
  revision_up = omega arith;
}
  where
    free : Dict ℕ
    free = (release_group g.group_id s).held_children

    apart :
        (k : ℕ) → has k (put_all g.group_id (child_ids g) free) ≡ true → has k s.segments ≡ false
    apart k h = elim (Bool-cases (contains k (child_ids g))) [
      | inl t ↦ ground (arith, new k t, contains-current_ids k s)
      | inr f ↦
          v.apart k
            (released g s k (ground (arith, f, h, has-put_all k g.group_id (child_ids g) free))).0
    ]

    indexed :
        (gid k : ℕ)
        → contains k (old_held gid (hold_group g s)) ≡ true
        → get k (put_all g.group_id (child_ids g) free) ≡ some gid
    indexed gid k h =
        get-put_all k g.group_id (child_ids g) free ∙ elim (Bool-cases (g.group_id == gid)) [
          | inl same ↦ ground (arith, same, h, get-put g.group_id gid g s.groups)
          | inr other ↦
              let there : contains k (old_held gid s) ≡ true = ground (
                arith,
                other,
                h,
                contains-remove g.group_id gid s.held_groups,
                get-put g.group_id gid g s.groups,
              ) in
              let is_held : has k s.held_children ≡ true =
                has_of_get k s.held_children gid (v.indexed gid k there) in
              let here : contains k (current_ids s) ≡ true =
                ground (arith, is_held, contains-current_ids k s, v.apart k is_held) in
              elim (Bool-cases (contains k (child_ids g))) [
                | inl t ↦ absurd (ground (arith, here, new k t))
                | inr f ↦
                    otherwise (contains k (child_ids g)) (some g.group_id) (get k free) f
                    ∙ other-indexed g s gid k v other there
              ]
        ]

    if_false :
        (k : ℕ)
        → contains k (child_ids g) ≡ false
        → (if contains k (child_ids g) then some g.group_id else get k free) ≡ get k free
    if_false k f = ground (arith, f)

any-child :
    (q : ℕ → Bool) (k : ℕ) (cs : List CaptionSegment)
    → any (λ c. q c.segment_id) cs ≡ false
    → contains k (map (λ c. c.segment_id) cs) ≡ true
    → q k ≡ false
any-child q k [] e h = absurd (ground (arith, h))
any-child q k (c ∷ cs) e h = elim (Bool-cases (c.segment_id == k)) [
  | inl same ↦ ap q (sym ((==_iff c.segment_id k).0 same)) ∙ ground (arith, e)
  | inr other ↦ any-child q k cs (ground (arith, e)) (ground (arith, h, other))
]

-- The identifiers that a group may use again.
reusable : Bool → CaptionGroupReplacement → CaptionStore → List ℕ
reusable applying_held g s = if applying_held then old_held g.group_id s else []

validate_group-passes :
    (g : CaptionGroupReplacement) (most : ℕ) (applying_held : Bool) (s : CaptionStore)
    → validate_group g most applying_held s ≡ some true
    → (check_parents g s.segments g.parents ≡ some true)
      × ((k : ℕ)
          → contains k (child_ids g) ≡ true
          → (contains k (current_ids s) && not (contains k (reusable applying_held g s))) ≡ false)
unfolding validate_group reusable child_ids
validate_group-passes g most applying_held s e = (
  parents_pass (check_parents g s.segments g.parents) refl,
  λ k h. any-child new k g.children none_old h,
)
  where
    new : ℕ → Bool
    new k =
        contains k (current_ids s)
        && not (contains k (if applying_held then old_held g.group_id s else []))

    none_old : any (λ c. new c.segment_id) g.children ≡ false
    none_old = ground (arith, e)

    parents_pass :
        (o : Option Bool)
        → check_parents g s.segments g.parents ≡ o
        → check_parents g s.segments g.parents ≡ some true
    parents_pass none q = absurd (ground (arith, e, q))
    parents_pass (some false) q = absurd (ground (arith, e, q))
    parents_pass (some true) q = q

pub replace_group-Moves :
    (g : CaptionGroupReplacement) (most : ℕ) (allow_manual : Bool) (s : CaptionStore)
    (r : Status × CaptionStore)
    → IsSound s
    → replace_group g most allow_manual s ≡ some r
    → Moves s r.1
unfolding replace_group reusable
replace_group-Moves g most allow_manual s r v e = checked (validate_group g most false s) refl
  where
    checked : (o : Option Bool) → validate_group g most false s ≡ o → Moves s r.1
    checked none q = absurd (ground (arith, e, q))
    checked (some false) q =
        subst (λ (p : Status × CaptionStore). Moves s p.1) {x = (stale, s)} {y = r}
          (ground (arith, e, q)) (Moves-refl s v)
    checked (some true) q =
        let (stand, new) = validate_group-passes g most false s q in
        elim (Bool-cases (any (is_manual s) g.parents && not allow_manual)) [
          | inl manual ↦
              subst (λ (p : Status × CaptionStore). Moves s p.1) {x = (held, hold_group g s)}
                {y = r} (ground (arith, e, q, manual))
                (hold_group-Moves g s v (λ k h. ground (arith, new k h)))
          | inr free ↦
              subst (λ (p : Status × CaptionStore). Moves s p.1) {x = (applied, apply_group g s)}
                {y = r} (ground (arith, e, q, free))
                (apply_group-Moves g s v (record {
                  parents_stand = stand;
                  children_fresh = λ k h there. ground (arith, new k h, there);
                }))
        ]

pub apply_held_group-Moves :
    (gid revision most : ℕ) (s : CaptionStore) (r : Bool × CaptionStore)
    → IsSound s
    → apply_held_group gid revision most s ≡ some r
    → Moves s r.1
unfolding apply_held_group reusable
apply_held_group-Moves gid revision most s r v e = found (get gid s.groups) refl
  where
    checked :
        (g : CaptionGroupReplacement)
        → get gid s.groups ≡ some g
        → (o : Option Bool) → validate_group g most true s ≡ o
        → Moves s r.1
    checked g there none q =
        subst (λ (p : Bool × CaptionStore). Moves s p.1) {x = (false, s)} {y = r}
          (ground (arith, e, there, q)) (Moves-refl s v)
    checked g there (some false) q =
        subst (λ (p : Bool × CaptionStore). Moves s p.1) {x = (false, s)} {y = r}
          (ground (arith, e, there, q)) (Moves-refl s v)
    checked g there (some true) q =
        let (stand, new) = validate_group-passes g most true s q in
        elim (Bool-cases (not (contains gid s.held_groups) || not (g.group_revision == revision))) [
          | inl refused ↦
              subst (λ (p : Bool × CaptionStore). Moves s p.1) {x = (false, s)} {y = r}
                (ground (arith, e, there, refused)) (Moves-refl s v)
          | inr kept ↦
              subst (λ (p : Bool × CaptionStore). Moves s p.1) {x = (true, apply_group g s)} {y = r}
                (ground (arith, e, there, q, kept))
                (apply_group-Moves g s v (record {
                  parents_stand = stand;
                  children_fresh = λ k h here. ground (arith, new k h, here);
                }))
        ]

    found : (o : Option CaptionGroupReplacement) → get gid s.groups ≡ o → Moves s r.1
    found none q =
        subst (λ (p : Bool × CaptionStore). Moves s p.1) {x = (false, s)} {y = r}
          (ground (arith, e, q)) (Moves-refl s v)
    found (some g) q = checked g q (validate_group g most true s) refl
