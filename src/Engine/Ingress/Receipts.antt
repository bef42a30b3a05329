-- ===== src/Engine/Ingress/Receipts.antt =====
-- What the timeline of MyVote-Speaker-Update/src/myvote_engine/ingress_timing.py keeps.
use my_vote_server.Base.{
  ℕ, ◌+◌, ◌≤◌, ◌<◌, ◌≡◌, refl, sym, ap, subst, ◌∙◌, inl, inr, true, false, ◌&&◌, Option, none, some,
  List, [], ◌∷◌, arith, leb, ◌==◌, leb→le, Bool-cases, if_ind, is_some, length,
}
use my_vote_server.Engine.Ingress.{
  AudioFrame, check_frame, Receipt, IngressTimeline, make, gap, refuses, is_broken, next_continuity,
  entry_of, drop_oldest, append, observe, lookup, anchor,
}

-- What the entry of a frame has to do with the entry before it.
pub record Follows (x y : Receipt) : Type 0 where
  pub same_track : x.track ≡ y.track
  pub after : y.end_ns ≤ x.start_ns
  pub received_after : y.received_at ≤ x.received_at
  pub continuity_up : y.continuity ≤ x.continuity
  pub same_epoch : x.continuity ≡ y.continuity → x.epoch ≡ y.epoch
  pub adjacent : x.continuity ≡ y.continuity → x.start_ns ≡ y.end_ns

-- Receipts, the newest first, of which each follows the next one.
unfoldable pub Chain : List Receipt → Type 0
Chain [] = Unit
Chain (x ∷ []) = x.start_ns < x.end_ns
Chain (x ∷ (y ∷ ys)) = (x.start_ns < x.end_ns) × Follows x y × Chain (y ∷ ys)

unfoldable pub IsLast : Option Receipt → ℕ → List Receipt → Type 0
IsLast last continuity [] = last ≡ none
IsLast last continuity (x ∷ xs) = (last ≡ some x) × (continuity ≡ x.continuity)

pub record IsTidy (t : IngressTimeline) : Type 0 where
  pub positive : 1 ≤ t.max_frames
  pub bounded : length t.frames ≤ t.max_frames
  pub counted : t.observed ≡ t.evicted + length t.frames
  pub chained : Chain t.frames
  pub last_kept : IsLast t.last t.continuity t.frames

length-drop_oldest : (xs : List Receipt) → 1 ≤ length xs → length (drop_oldest xs) + 1 ≡ length xs
unfolding drop_oldest
length-drop_oldest [] h = omega (arith, h)
length-drop_oldest (x ∷ []) h = refl
length-drop_oldest (x ∷ (y ∷ ys)) h = omega (arith, length-drop_oldest (y ∷ ys) (omega arith))

drop_oldest-Chain : (xs : List Receipt) → Chain xs → Chain (drop_oldest xs)
unfolding drop_oldest Chain
drop_oldest-Chain [] c = tt
drop_oldest-Chain (x ∷ []) c = tt
drop_oldest-Chain (x ∷ (y ∷ [])) c = c.0
drop_oldest-Chain (x ∷ (y ∷ (z ∷ zs))) c = (c.0, c.1, drop_oldest-Chain (y ∷ (z ∷ zs)) c.2)

IsLast-first :
    (t : IngressTimeline) (x : Receipt) (xs : List Receipt)
    → IsLast t.last t.continuity t.frames
    → t.frames ≡ x ∷ xs
    → (t.last ≡ some x) × (t.continuity ≡ x.continuity)
unfolding IsLast
IsLast-first t x xs l e = subst (IsLast t.last t.continuity) {x = t.frames} {y = x ∷ xs} e l

cons-Chain :
    (entry : Receipt) (xs : List Receipt)
    → entry.start_ns < entry.end_ns
    → ((x : Receipt) (ys : List Receipt) → xs ≡ x ∷ ys → Follows entry x)
    → Chain xs
    → Chain (entry ∷ xs)
unfolding Chain
cons-Chain entry [] lasts follows c = lasts
cons-Chain entry (x ∷ xs) lasts follows c = (lasts, follows x xs refl, c)

cons_drop-Chain :
    (entry : Receipt) (xs : List Receipt) → Chain (entry ∷ xs) → Chain (entry ∷ drop_oldest xs)
unfolding Chain drop_oldest
cons_drop-Chain entry [] c = c
cons_drop-Chain entry (x ∷ []) c = c.0
cons_drop-Chain entry (x ∷ (y ∷ ys)) c = (c.0, c.1, drop_oldest-Chain (x ∷ (y ∷ ys)) c.2)

-- A new entry in front of the entry that it was compared with.
entry-Follows :
    (f : AudioFrame) (received_at : ℕ) (t : IngressTimeline) (x : Receipt)
    → t.last ≡ some x
    → t.continuity ≡ x.continuity
    → refuses f received_at (some x) ≡ false
    → Follows (entry_of f received_at t) x
unfolding refuses entry_of next_continuity is_broken
entry-Follows f received_at t x l k h = record {
  same_track = ground (arith, h);
  after = ground (arith, h);
  received_after = ground (arith, h);
  continuity_up = ground (arith, l, k, h);
  same_epoch = ground (arith, l, k, h);
  adjacent = ground (arith, l, k, h);
}

entry_lasts :
    (f : AudioFrame) (received_at : ℕ) (t : IngressTimeline)
    → check_frame f ≡ true
    → (entry_of f received_at t).start_ns < (entry_of f received_at t).end_ns
unfolding check_frame entry_of
entry_lasts f received_at t w = omega (arith, leb→le 1 f.samples (ground (arith, w)))

append-IsTidy :
    (entry : Receipt) (t : IngressTimeline)
    → IsTidy t
    → Chain (entry ∷ t.frames)
    → IsTidy (append entry t)
unfolding append IsLast
append-IsTidy entry t v c = record {
  positive = v.positive;
  bounded = ground (arith, v.positive, v.bounded, length-drop_oldest t.frames);
  counted = ground (arith, v.positive, v.bounded, v.counted, length-drop_oldest t.frames);
  chained =
      if_ind (λ xs. Chain (entry ∷ xs)) (length t.frames == t.max_frames) _ _
        (λ e. cons_drop-Chain entry t.frames c) (λ e. c);
  last_kept = (refl, refl);
}

pub observe-IsTidy :
    (f : AudioFrame) (received_at : Option ℕ) (t r : IngressTimeline)
    → check_frame f ≡ true
    → IsTidy t
    → observe f received_at t ≡ some r
    → IsTidy r
unfolding check_frame observe
observe-IsTidy f none t r w v e = absurd (ground (arith, e))
observe-IsTidy f (some received_at) t r w v e = elim (Bool-cases (refuses f received_at t.last)) [
  | inl refused ↦ absurd (ground (arith, e, refused))
  | inr fine ↦
      subst IsTidy {x = append (entry_of f received_at t) t} {y = r} (ground (arith, e, fine))
        (append-IsTidy (entry_of f received_at t) t v (chained fine))
]
  where
    chained : refuses f received_at t.last ≡ false → Chain (entry_of f received_at t ∷ t.frames)
    chained fine =
        cons-Chain (entry_of f received_at t) t.frames (entry_lasts f received_at t w)
          (λ x xs same.
            let (l, k) = IsLast-first t x xs v.last_kept same in
            entry-Follows f received_at t x l k (sym (ap (refuses f received_at) l) ∙ fine))
          v.chained

-- A call of the timeline; one that raises is no step.
pub data Step (t : IngressTimeline) : IngressTimeline → Type 0 where
  observes :
      (f : AudioFrame) (received_at : Option ℕ) (r : IngressTimeline)
      → check_frame f ≡ true
      → observe f received_at t ≡ some r
      → Step t r
  loses : Step t (gap t)
  anchors : (track epoch start_ns end_ns : ℕ) → Step t (anchor track epoch start_ns end_ns t).1

pub anchor-IsTidy :
    (track epoch start_ns end_ns : ℕ) (t : IngressTimeline)
    → IsTidy t
    → IsTidy (anchor track epoch start_ns end_ns t).1
unfolding anchor
anchor-IsTidy track epoch start_ns end_ns t v =
    if_ind IsTidy (is_some (lookup track epoch start_ns end_ns t)) _ _ (λ e. v)
      (λ e. record {
        positive = v.positive;
        bounded = v.bounded;
        counted = v.counted;
        chained = v.chained;
        last_kept = v.last_kept;
      })

pub Step-IsTidy : {t r : IngressTimeline} → IsTidy t → Step t r → IsTidy r
unfolding gap
Step-IsTidy {t} v (observes f received_at r w e) = observe-IsTidy f received_at t r w v e
Step-IsTidy v loses = record {
  positive = v.positive;
  bounded = v.bounded;
  counted = v.counted;
  chained = v.chained;
  last_kept = v.last_kept;
}
Step-IsTidy {t} v (anchors track epoch start_ns end_ns) =
    anchor-IsTidy track epoch start_ns end_ns t v

pub make-IsTidy : (max_frames : ℕ) (t : IngressTimeline) → make max_frames ≡ some t → IsTidy t
unfolding make Chain IsLast
make-IsTidy max_frames t e = elim (Bool-cases (leb 1 max_frames && leb max_frames 200000)) [
  | inr bad ↦ absurd (ground (arith, e, bad))
  | inl fine ↦ subst IsTidy {x = fresh} {y = t} (ground (arith, e, fine)) (record {
    positive = leb→le 1 max_frames (ground (arith, fine));
    bounded = omega arith;
    counted = refl;
    chained = tt;
    last_kept = refl;
  })
]
  where
    fresh : IngressTimeline
    fresh = record {
      max_frames = max_frames;
      frames = [];
      last = none;
      continuity = 0;
      gap_pending = false;
      observed = 0;
      evicted = 0;
      lookup_misses = 0;
    }
