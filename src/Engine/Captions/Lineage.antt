-- ===== src/Engine/Captions/Lineage.antt =====
-- Replacing and holding groups lets captions evolve:
-- MyVote-Speaker-Update/src/myvote_engine/captions.py.
use my_vote_server.Base.{
  ℕ, ◌≡◌, refl, sym, ap, subst, ◌∙◌, ◌≢◌, ◌⊎◌, inl, inr, true, false, ◌||◌, Option, none, some,
  List, [], ◌∷◌, map, arith, ◌==◌, ==_iff, Bool-cases, get_or_else, is_empty, contains, Dict, get,
  put, has, get-put, has-put,
}
use my_vote_server.Engine.Captions.Segments.{CaptionSegment}
use my_vote_server.Engine.Captions.Groups.{CaptionParentRef, CaptionGroupReplacement}
use my_vote_server.Engine.Captions.Replacing.{check_parents, put_children, bury, put_parents}

pub get-put_children :
    (k : ℕ) (cs : List CaptionSegment) (d : Dict CaptionSegment)
    → contains k (map (λ c. c.segment_id) cs) ≡ false
    → get k (put_children cs d) ≡ get k d
unfolding put_children
get-put_children k [] d h = refl
get-put_children k (c ∷ cs) d h =
    ground (arith, get-put_children k cs (put c.segment_id c d), get-put c.segment_id k c d)

-- Each key of the new dictionary is an old key or a child.
pub has-put_children :
    (k : ℕ) (cs : List CaptionSegment) (d : Dict CaptionSegment)
    → has k (put_children cs d) ≡ (has k d || contains k (map (λ c. c.segment_id) cs))
unfolding put_children
has-put_children k [] d = ground arith
has-put_children k (c ∷ cs) d =
    ground (arith, has-put_children k cs (put c.segment_id c d), has-put c.segment_id k c d)

-- A dictionary whose captions stand under their own identifiers.
unfoldable pub IsKeyed : Dict CaptionSegment → Type 0
IsKeyed d = (k : ℕ) (x : CaptionSegment) → get k d ≡ some x → x.segment_id ≡ k

put-IsKeyed :
    (k : ℕ) (y : CaptionSegment) (d : Dict CaptionSegment)
    → y.segment_id ≡ k
    → IsKeyed d
    → IsKeyed (put k y d)
unfolding IsKeyed
put-IsKeyed k y d here keyed j x h = elim (Bool-cases (k == j)) [
  | inl same ↦ ground (arith, get-put k j y d, h, here, same)
  | inr other ↦ keyed j x (ground (arith, get-put k j y d, h, other))
]

pub put_children-IsKeyed :
    (cs : List CaptionSegment) (d : Dict CaptionSegment) → IsKeyed d → IsKeyed (put_children cs d)
unfolding put_children
put_children-IsKeyed [] d keyed = keyed
put_children-IsKeyed (c ∷ cs) d keyed =
    put_children-IsKeyed cs (put c.segment_id c d) (put-IsKeyed c.segment_id c d refl keyed)

-- A parent as it was, or, if it was no tombstone, as a tombstone.
unfoldable pub Marked : List CaptionSegment → ℕ → CaptionSegment → Option CaptionSegment → Type 0
Marked cs k x o = (o ≡ some x) ⊎ ((o ≡ some (bury k cs x)) × (is_empty x.superseded_by ≡ true))

put-Marked :
    (cs : List CaptionSegment) (j : ℕ) (y : CaptionSegment) (old d : Dict CaptionSegment) (k : ℕ)
    (x : CaptionSegment)
    → get j old ≡ some y
    → is_empty y.superseded_by ≡ true
    → get k old ≡ some x
    → Marked cs k x (get k d)
    → Marked cs k x (get k (put j (bury j cs y) d))
unfolding Marked
put-Marked cs j y old d k x here fresh there m = elim (Bool-cases (j == k)) [
  | inr other ↦
      subst (Marked cs k x) {x = get k d} {y = get k (put j (bury j cs y) d)}
        (ground (arith, other, get-put j k (bury j cs y) d)) m
  | inl same ↦
      let j_k : j ≡ k = (==_iff j k).0 same in
      let y_x : y ≡ x = ap (λ o. get_or_else o y) (sym here ∙ ap (λ i. get i old) j_k ∙ there) in
      inr (
        ground (arith, same, get-put j k (bury j cs y) d, buried j_k y_x),
        ap (λ (z : CaptionSegment). is_empty z.superseded_by) (sym y_x) ∙ fresh,
      )
]
  where
    buried : j ≡ k → y ≡ x → bury j cs y ≡ bury k cs x
    buried p q = ap (λ i. bury i cs y) p ∙ ap (bury k cs) q

-- What the checks on a parent say of its caption.
parent-fresh :
    (g : CaptionGroupReplacement) (segments : Dict CaptionSegment) (p : CaptionParentRef)
    (ps : List CaptionParentRef) (y : CaptionSegment)
    → check_parents g segments (p ∷ ps) ≡ some true
    → get p.segment_id segments ≡ some y
    → (is_empty y.superseded_by ≡ true) × (check_parents g segments ps ≡ some true)
unfolding check_parents
parent-fresh g segments p ps y e h = (ground (arith, e, h), ground (arith, e, h))

parent-there :
    (g : CaptionGroupReplacement) (segments : Dict CaptionSegment) (p : CaptionParentRef)
    (ps : List CaptionParentRef)
    → check_parents g segments (p ∷ ps) ≡ some true
    → get p.segment_id segments ≢ none
unfolding check_parents
parent-there g segments p ps e h = ground (arith, e, h)

pub put_parents-Marked :
    (g : CaptionGroupReplacement) (cs : List CaptionSegment) (old d : Dict CaptionSegment)
    (ps : List CaptionParentRef) (k : ℕ) (x : CaptionSegment)
    → check_parents g old ps ≡ some true
    → get k old ≡ some x
    → Marked cs k x (get k d)
    → Marked cs k x (get k (put_parents cs old ps d))
unfolding put_parents
put_parents-Marked g cs old d [] k x e h m = m
put_parents-Marked g cs old d (p ∷ ps) k x e h m =
    found (get p.segment_id old) refl (λ f b. put_parents-Marked g cs old f ps k x b h)
  where
    found :
        (o : Option CaptionSegment)
        → get p.segment_id old ≡ o
        → ((f : Dict CaptionSegment)
            → check_parents g old ps ≡ some true
            → Marked cs k x (get k f)
            → Marked cs k x (get k (put_parents cs old ps f)))
        → Marked cs k x (
            get k (elim o [
              | none ↦ put_parents cs old ps d
              | some y ↦ put_parents cs old ps (put p.segment_id (bury p.segment_id cs y) d)
            ]))
    found none q later = absurd (parent-there g old p ps e q)
    found (some y) q later =
        let (fresh, rest) = parent-fresh g old p ps y e q in
        later (put p.segment_id (bury p.segment_id cs y) d) rest
          (put-Marked cs p.segment_id y old d k x q fresh h m)

-- The new projection stays keyed, and its keys are those that were there.
pub put_parents-IsKeyed :
    (cs : List CaptionSegment) (old d : Dict CaptionSegment) (ps : List CaptionParentRef)
    → IsKeyed old
    → IsKeyed d
    → IsKeyed (put_parents cs old ps d)
unfolding put_parents
put_parents-IsKeyed cs old d [] o k = k
put_parents-IsKeyed cs old d (p ∷ ps) o k =
    found (get p.segment_id old) refl (λ f. put_parents-IsKeyed cs old f ps o)
  where
    found :
        (r : Option CaptionSegment)
        → get p.segment_id old ≡ r
        → ((f : Dict CaptionSegment) → IsKeyed f → IsKeyed (put_parents cs old ps f))
        → IsKeyed (elim r [
          | none ↦ put_parents cs old ps d
          | some y ↦ put_parents cs old ps (put p.segment_id (bury p.segment_id cs y) d)
        ])
    found none q later = later d k
    found (some y) q later = later (put p.segment_id (bury p.segment_id cs y) d) (
        put-IsKeyed p.segment_id (bury p.segment_id cs y) d
          (unfold bury IsKeyed in o p.segment_id y q) k)

other_key :
    (old : Dict CaptionSegment) (j k : ℕ) (y : CaptionSegment)
    → get j old ≡ some y
    → has k old ≡ false
    → (j == k) ≡ false
unfolding has
other_key old j k y there missing = elim (Bool-cases (j == k)) [
  | inr f ↦ f
  | inl t ↦
      let same : get k old ≡ some y = ap (λ i. get i old) (sym ((==_iff j k).0 t)) ∙ there in
      absurd (ground (arith, same, missing))
]

pub has-put_parents :
    (cs : List CaptionSegment) (old d : Dict CaptionSegment) (ps : List CaptionParentRef) (k : ℕ)
    → has k old ≡ false
    → has k (put_parents cs old ps d) ≡ has k d
unfolding put_parents
has-put_parents cs old d [] k h = refl
has-put_parents cs old d (p ∷ ps) k h =
    found (get p.segment_id old) refl (λ f. has-put_parents cs old f ps k h)
  where
    found :
        (r : Option CaptionSegment)
        → get p.segment_id old ≡ r
        → ((f : Dict CaptionSegment) → has k (put_parents cs old ps f) ≡ has k f)
        → has k (elim r [
          | none ↦ put_parents cs old ps d
          | some y ↦ put_parents cs old ps (put p.segment_id (bury p.segment_id cs y) d)
        ])
          ≡ has k d
    found none q later = later d
    found (some y) q later =
        later (put p.segment_id (bury p.segment_id cs y) d)
        ∙ ground (
          arith,
          has-put p.segment_id k (bury p.segment_id cs y) d,
          other_key old p.segment_id k y q h,
        )
