-- ===== src/Engine/Captions/Replacing.antt =====
-- Replacing parents by the captions of separated lanes, and the snapshot of a store:
-- MyVote-Speaker-Update/src/myvote_engine/captions.py.
use my_vote_server.Base.{
  ℕ, ◌+◌, Bool, true, false, not, ◌&&◌, ◌||◌, Option, none, some, List, [], ◌∷◌, ◌++◌, map, ltb,
  leb, ◌==◌, if◌then◌else◌, length, is_empty, any, all, filter, count, contains, remove, Dict, get,
  put, pop, has, keys,
}
use my_vote_server.Engine.Captions.Segments.{CaptionSegment, is_name}
use my_vote_server.Engine.Captions.Groups.{
  CaptionParentRef, CaptionGroupReplacement, child_ids, is_just,
}
use my_vote_server.Engine.Captions.Store.{group_held, group_replaced, CaptionStore, note}

-- The children of a group that is held, which `_validate_group` calls `old_held`.
unfoldable pub old_held : ℕ → CaptionStore → List ℕ
unfolding get child_ids
old_held gid s =
    if contains gid s.held_groups
    then (elim (get gid s.groups) [ none ↦ [] | some g ↦ child_ids g ])
    else []

-- `set(self._segments) | set(self._held_children)`.
unfoldable pub current_ids : CaptionStore → List ℕ
unfolding keys has
current_ids s = keys s.segments ++ filter (λ k. not (has k s.segments)) (keys s.held_children)

-- The loop over the parents: none is its ValueError, `some false` a stale group.
unfoldable pub check_parents :
    CaptionGroupReplacement → Dict CaptionSegment → List CaptionParentRef → Option Bool
unfolding get is_just
check_parents g segments [] = some true
check_parents g segments (p ∷ ps) =
    let rest = check_parents g segments ps in
    elim (get p.segment_id segments) [
      | none ↦ some false
      | some current ↦
          if not (is_empty current.superseded_by)
            || not (current.source_revision == p.source_revision)
          then some false
          else if not (is_just g.source_track_id current.source_track_id)
              || not (is_just g.capture_epoch current.capture_epoch)
              || ltb current.start_ns g.start_ns
              || ltb g.end_ns current.end_ns
              || any
                  (λ c.
                    contains p.segment_id c.parent_segment_ids
                    && (leb c.end_ns current.start_ns || leb current.end_ns c.start_ns))
                  g.children
          then none
          else rest
    ]

unfoldable pub has_generation : ℕ → CaptionSegment → Bool
has_generation generation c = elim c.translation [
  | none ↦ true
  | some t ↦ t.provider_generation == generation
]

unfoldable pub is_old_revision : CaptionGroupReplacement → Option CaptionGroupReplacement → Bool
is_old_revision g none = false
is_old_revision g (some old) = leb g.group_revision old.group_revision

-- `_validate_group`: none is a ValueError, `some false` a stale group.
unfoldable pub validate_group : CaptionGroupReplacement → ℕ → Bool → CaptionStore → Option Bool
unfolding get old_held current_ids check_parents has_generation is_old_revision
validate_group g max_segments applying_held s =
    let held = old_held g.group_id s in
    let reusable = if applying_held then held else [] in
    if ltb max_segments 1
    then none
    else if not applying_held && is_old_revision g (get g.group_id s.groups)
    then some false
    else if any (λ c. contains c.segment_id (current_ids s) && not (contains c.segment_id reusable))
          g.children
        || ltb max_segments (count (λ k. not (contains k held)) (current_ids s) + length g.children)
    then none
    else elim (check_parents g s.segments g.parents) [
      | none ↦ none
      | some false ↦ some false
      | some true ↦ if all (has_generation s.generation) g.children then some true else none
    ]

unfoldable pub put_children : List CaptionSegment → Dict CaptionSegment → Dict CaptionSegment
unfolding put
put_children [] d = d
put_children (c ∷ cs) d = put_children cs (put c.segment_id c d)

-- The children that name a parent.
unfoldable pub heirs : ℕ → List CaptionSegment → List ℕ
heirs k cs = map (λ c. c.segment_id) (filter (λ c. contains k c.parent_segment_ids) cs)

-- A parent with its heirs.
unfoldable pub bury : ℕ → List CaptionSegment → CaptionSegment → CaptionSegment
unfolding heirs
bury k cs x = record x { superseded_by = heirs k cs }

-- The parents with their heirs; `old` is the projection before the group.
unfoldable pub put_parents :
    List CaptionSegment
    → Dict CaptionSegment
    → List CaptionParentRef
    → Dict CaptionSegment
    → Dict CaptionSegment
unfolding get put bury
put_parents cs old [] d = d
put_parents cs old (p ∷ ps) d = elim (get p.segment_id old) [
  | none ↦ put_parents cs old ps d
  | some x ↦ put_parents cs old ps (put p.segment_id (bury p.segment_id cs x) d)
]

unfoldable pub pop_all : List ℕ → Dict ℕ → Dict ℕ
unfolding pop
pop_all [] d = d
pop_all (k ∷ ks) d = pop_all ks (pop k d)

unfoldable pub put_all : ℕ → List ℕ → Dict ℕ → Dict ℕ
unfolding put
put_all v [] d = d
put_all v (k ∷ ks) d = put_all v ks (put k v d)

-- A group that was held is not any more.
unfoldable pub release_group : ℕ → CaptionStore → CaptionStore
unfolding old_held pop_all
release_group gid s = record s {
  held_children = pop_all (old_held gid s) s.held_children;
  held_groups = remove gid s.held_groups;
}

-- `_commit_group` with the status "held" or "applied".
unfoldable pub hold_group : CaptionGroupReplacement → CaptionStore → CaptionStore
unfolding release_group put put_all child_ids note
hold_group g s =
    let free = release_group g.group_id s in
    note (group_held g) true (record free {
      groups = put g.group_id g s.groups;
      held_groups = g.group_id ∷ free.held_groups;
      held_children = put_all g.group_id (child_ids g) free.held_children;
    })

unfoldable pub apply_group : CaptionGroupReplacement → CaptionStore → CaptionStore
unfolding release_group put put_children put_parents note
apply_group g s =
    let free = release_group g.group_id s in
    note (group_replaced g) true (record free {
      groups = put g.group_id g s.groups;
      segments = put_parents g.children s.segments g.parents (put_children g.children s.segments);
    })

pub data Status : Type 0 where
  applied held stale : Status

unfoldable pub is_manual : CaptionStore → CaptionParentRef → Bool
unfolding get
is_manual s p = elim (get p.segment_id s.segments) [ none ↦ false | some x ↦ x.speaker_manual ]

-- `replace_group`; none is its ValueError.
unfoldable pub replace_group :
    CaptionGroupReplacement → ℕ → Bool → CaptionStore → Option (Status × CaptionStore)
unfolding validate_group is_manual hold_group apply_group
replace_group g max_segments allow_manual s = elim (validate_group g max_segments false s) [
  | none ↦ none
  | some false ↦ some (stale, s)
  | some true ↦
      if any (is_manual s) g.parents && not allow_manual
      then (if not (contains g.group_id s.held_groups) && leb 64 (length s.held_groups)
          then none
          else some (held, hold_group g s))
      else some (applied, apply_group g s)
]

-- `apply_held_group`; none is its ValueError.
unfoldable pub apply_held_group : ℕ → ℕ → ℕ → CaptionStore → Option (Bool × CaptionStore)
unfolding is_name get validate_group apply_group
apply_held_group gid revision max_segments s =
    if not (is_name gid) || ltb revision 1 then none else elim (get gid s.groups) [
      | none ↦ some (false, s)
      | some g ↦
          if not (contains gid s.held_groups) || not (g.group_revision == revision)
          then some (false, s)
          else elim (validate_group g max_segments true s) [
            | none ↦ none
            | some false ↦ some (false, s)
            | some true ↦ some (true, apply_group g s)
          ]
    ]

-- `group_status`.
unfoldable pub group_status : ℕ → CaptionStore → Option Status
unfolding has
group_status gid s =
    if not (has gid s.groups)
    then none
    else some (if contains gid s.held_groups then held else applied)
