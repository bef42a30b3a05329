-- ===== src/Engine/Ingress/Lookups.antt =====
-- What a lookup in the timeline of MyVote-Speaker-Update/src/myvote_engine/ingress_timing.py finds.
use my_vote_server.Base.{
  ℕ, zero, suc, ◌≤◌, ◌<◌, ◌≡◌, refl, sym, ap, ◌∙◌, ◌⊎◌, inl, inr, Bool, true, false, ◌&&◌, some,
  List, [], ◌∷◌, arith, ltb, leb, ◌==◌, ltb→lt, leb→le, Bool-cases, any,
}
use my_vote_server.Engine.Ingress.Windows.Kept.{History-IsWindow}
use my_vote_server.Engine.Ingress.Windows.{
  Event, Observed, observed_of, breaks, run_of, receipt_of, window, History,
}
use my_vote_server.Engine.Ingress.{
  end_time_ns, Receipt, IngressTimeline, holds_end, find_start, find_end, lookup, anchor,
}
use my_vote_server.Engine.Ingress.Receipts.{Chain}

-- Whether a retained frame of one track, one epoch and one unbroken run holds a time.
unfoldable pub retains : ℕ → ℕ → ℕ → ℕ → List Receipt → Bool
retains track epoch continuity p frames =
    any
      (λ x.
        leb x.start_ns p
        && ltb p x.end_ns
        && x.track == track
        && x.epoch == epoch
        && x.continuity == continuity)
      frames

holds_end-parts :
    (track epoch end_ns : ℕ) (x : Receipt)
    → holds_end track epoch end_ns x ≡ true
    → (x.track ≡ track) × (x.epoch ≡ epoch) × (end_ns ≤ x.end_ns)
unfolding holds_end
holds_end-parts track epoch end_ns x h = (ground (arith, h), ground (arith, h), ground (arith, h))

unfoldable pub IsIn : Receipt → List Receipt → Type 0
IsIn x [] = ⊥
IsIn x (y ∷ ys) = (x ≡ y) ⊎ IsIn x ys

find_start-retains :
    (start_ns p r track epoch : ℕ) (e x : Receipt) (xs : List Receipt)
    → Chain (x ∷ xs)
    → x.track ≡ track
    → x.epoch ≡ epoch
    → find_start start_ns e (x ∷ xs) ≡ some r
    → start_ns ≤ p
    → p < x.end_ns
    → retains track epoch e.continuity p (x ∷ xs) ≡ true
unfolding Chain find_start retains
find_start-retains start_ns p r track epoch e x [] c ht he h a b = ground (arith, h, ht, he, a, b)
find_start-retains start_ns p r track epoch e x (y ∷ ys) c ht he h a b =
    elim (Bool-cases (leb x.start_ns p)) [
      | inl here ↦ ground (arith, h, ht, he, a, b, here)
      | inr early ↦ ground (
        arith,
        find_start-retains start_ns p r track epoch e y ys c.2 (sym c.1.same_track ∙ ht)
            (sym (c.1.same_epoch (joined early)) ∙ he) (later early) a
            (omega
              (arith, c.1.adjacent (joined early), ltb→lt p x.start_ns (ground (arith, early)))),
      )
    ]
  where
    later : leb x.start_ns p ≡ false → find_start start_ns e (y ∷ ys) ≡ some r
    later early = ground (arith, h, early, a)

    joined : leb x.start_ns p ≡ false → x.continuity ≡ y.continuity
    joined early = ground (arith, h, later early)

-- The frames cover a clause: one of them that is of its track and epoch holds its end, and each
-- time of the clause is held by one of the same track, epoch and unbroken run.
pub record IsAnchor (track epoch start_ns end_ns r : ℕ) (frames : List Receipt) : Type 0 where
  pub endpoint : Receipt
  pub found : IsIn endpoint frames
  pub ends : holds_end track epoch end_ns endpoint ≡ true
  pub received : endpoint.received_at ≡ r
  pub covers :
      (p : ℕ) → start_ns ≤ p → p < end_ns → retains track epoch endpoint.continuity p frames ≡ true

retains-there :
    (track epoch continuity p : ℕ) (x : Receipt) (xs : List Receipt)
    → retains track epoch continuity p xs ≡ true
    → retains track epoch continuity p (x ∷ xs) ≡ true
unfolding retains
retains-there track epoch continuity p x xs h = ground (arith, h)

find_start-received :
    (start_ns r : ℕ) (e : Receipt) (xs : List Receipt)
    → find_start start_ns e xs ≡ some r
    → e.received_at ≡ r
unfolding find_start
find_start-received start_ns r e [] h = ground (arith, h)
find_start-received start_ns r e (x ∷ xs) h = ground (arith, h, find_start-received start_ns r e xs)

pub Chain-tail : (x : Receipt) (xs : List Receipt) → Chain (x ∷ xs) → Chain xs
unfolding Chain
Chain-tail x [] c = tt
Chain-tail x (y ∷ ys) c = c.2

find_end-IsAnchor :
    (track epoch start_ns end_ns r : ℕ) (frames : List Receipt)
    → Chain frames
    → find_end track epoch start_ns end_ns frames ≡ some r
    → IsAnchor track epoch start_ns end_ns r frames
unfolding find_end IsIn
find_end-IsAnchor track epoch start_ns end_ns r [] c h = absurd (ground (arith, h))
find_end-IsAnchor track epoch start_ns end_ns r (x ∷ xs) c h =
    elim (Bool-cases (holds_end track epoch end_ns x)) [
      | inl e ↦ here e (ground (arith, h, e))
      | inr e ↦
          let rest =
            find_end-IsAnchor track epoch start_ns end_ns r xs (Chain-tail x xs c)
              (ground (arith, h, e)) in
          record {
            endpoint = rest.endpoint;
            found = inr rest.found;
            ends = rest.ends;
            received = rest.received;
            covers = λ p a b.
                retains-there track epoch rest.endpoint.continuity p x xs (rest.covers p a b);
          }
    ]
  where
    here :
        holds_end track epoch end_ns x ≡ true
        → find_start start_ns x (x ∷ xs) ≡ some r
        → IsAnchor track epoch start_ns end_ns r (x ∷ xs)
    here e f =
        let (track_same, epoch_same, late) = holds_end-parts track epoch end_ns x e in
        record {
          endpoint = x;
          found = inl refl;
          ends = e;
          received = find_start-received start_ns r x (x ∷ xs) f;
          covers = λ p a b.
              find_start-retains start_ns p r track epoch x x xs c track_same epoch_same f a
                (omega (arith, late, b));
        }

-- From the newest of n frames back, without a break, to one that starts no later than a time.
pub data Reaches (start_ns : ℕ) : ℕ → List Observed → Type 0 where
  holds_start :
      (n : ℕ) (o : Observed) (os : List Observed)
      → o.frame.start_time_ns ≤ start_ns
      → Reaches start_ns (suc n) (o ∷ os)
  goes_back :
      (n : ℕ) (o p : Observed) (os : List Observed)
      → breaks o p ≡ false
      → Reaches start_ns n (p ∷ os)
      → Reaches start_ns (suc n) (o ∷ (p ∷ os))

-- Among the n newest frames of a history is one, received at r, of the clause's track and epoch
-- that holds its end and from which one gets back to its start without a break.
pub data IsHeard (track epoch start_ns end_ns r : ℕ) : ℕ → List Observed → Type 0 where
  at_end :
      (n : ℕ) (o : Observed) (os : List Observed)
      → o.frame.track_id ≡ track
      → o.frame.capture_epoch ≡ epoch
      → o.frame.start_time_ns < end_ns
      → end_ns ≤ end_time_ns o.frame
      → o.received_at ≡ r
      → Reaches start_ns (suc n) (o ∷ os)
      → IsHeard track epoch start_ns end_ns r (suc n) (o ∷ os)
  earlier :
      (n : ℕ) (o : Observed) (os : List Observed)
      → IsHeard track epoch start_ns end_ns r n os
      → IsHeard track epoch start_ns end_ns r (suc n) (o ∷ os)

find_start-run :
    (start_ns r n : ℕ) (e : Receipt) (o : Observed) (os : List Observed)
    → find_start start_ns e (window (suc n) (o ∷ os)) ≡ some r
    → run_of (o ∷ os) ≡ e.continuity
unfolding find_start window receipt_of
find_start-run start_ns r n e o os h = ground (arith, h)

unbroken :
    (o p : Observed) (os : List Observed)
    → run_of (o ∷ (p ∷ os)) ≡ run_of (p ∷ os)
    → breaks o p ≡ false
unfolding run_of
unbroken o p os h = elim (Bool-cases (breaks o p)) [
  | inl b ↦ absurd (ground (arith, h, b))
  | inr b ↦ b
]

find_start-Reaches :
    (start_ns r n : ℕ) (e : Receipt) (o : Observed) (os : List Observed)
    → find_start start_ns e (window (suc n) (o ∷ os)) ≡ some r
    → Reaches start_ns (suc n) (o ∷ os)
unfolding find_start window receipt_of
find_start-Reaches start_ns r zero e o os h =
    holds_start zero o os (leb→le o.frame.start_time_ns start_ns (ground (arith, h)))
find_start-Reaches start_ns r (suc n) e o [] h =
    holds_start (suc n) o [] (leb→le o.frame.start_time_ns start_ns (ground (arith, h)))
find_start-Reaches start_ns r (suc n) e o (p ∷ os) h =
    elim (Bool-cases (leb o.frame.start_time_ns start_ns)) [
      | inl here ↦ holds_start (suc n) o (p ∷ os) (leb→le o.frame.start_time_ns start_ns here)
      | inr early ↦
          let back : find_start start_ns e (window (suc n) (p ∷ os)) ≡ some r =
            ground (arith, h, early) in
          goes_back (suc n) o p os
            (unbroken o p os (
              find_start-run start_ns r (suc n) e o (p ∷ os) h
              ∙ sym (find_start-run start_ns r n e p os back)))
            (find_start-Reaches start_ns r n e p os back)
    ]

holds_end-start :
    (track epoch end_ns : ℕ) (x : Receipt)
    → holds_end track epoch end_ns x ≡ true
    → x.start_ns < end_ns
unfolding holds_end
holds_end-start track epoch end_ns x h = ground (arith, h)

find_end-IsHeard :
    (track epoch start_ns end_ns r n : ℕ) (os : List Observed)
    → find_end track epoch start_ns end_ns (window n os) ≡ some r
    → IsHeard track epoch start_ns end_ns r n os
unfolding find_end window receipt_of
find_end-IsHeard track epoch start_ns end_ns r zero os h = absurd (ground (arith, h))
find_end-IsHeard track epoch start_ns end_ns r (suc n) [] h = absurd (ground (arith, h))
find_end-IsHeard track epoch start_ns end_ns r (suc n) (o ∷ os) h =
    let x = receipt_of (run_of (o ∷ os)) o in
    elim (Bool-cases (holds_end track epoch end_ns x)) [
      | inl e ↦
          let (track_same, epoch_same, late) = holds_end-parts track epoch end_ns x e in
          let found : find_start start_ns x (window (suc n) (o ∷ os)) ≡ some r =
            ground (arith, h, e) in
          at_end n o os track_same epoch_same (holds_end-start track epoch end_ns x e) late
            (find_start-received start_ns r x (window (suc n) (o ∷ os)) found)
            (find_start-Reaches start_ns r n x o os found)
      | inr e ↦
          earlier n o os
            (find_end-IsHeard track epoch start_ns end_ns r n os (ground (arith, h, e)))
    ]

-- When a timeline, after any frames, gaps and lookups, answers a lookup with a time, that is the
-- time at which a frame was received that is among the newest max_frames of that history, is of the
-- clause's track and epoch and holds its end, and from which one gets back to a frame that starts
-- no later than the clause, also among those, without a break: each of these frames is of the
-- epoch of the one before, has the number after it and starts where it ended, and no gap was told
-- of between them. And every time of the clause is held by a retained frame of the clause's track
-- and epoch and of one run.
pub anchor-IsAnchor :
    (max_frames : ℕ) (es : List Event) (s : IngressTimeline) (track epoch start_ns end_ns r : ℕ)
    → History max_frames es s
    → (anchor track epoch start_ns end_ns s).0 ≡ some r
    → IsHeard track epoch start_ns end_ns r max_frames (observed_of es)
      × IsAnchor track epoch start_ns end_ns r s.frames
unfolding anchor lookup
anchor-IsAnchor max_frames es s track epoch start_ns end_ns r p h =
    let (w, v) = History-IsWindow max_frames es s p in
    let found : find_end track epoch start_ns end_ns s.frames ≡ some r = ground (arith, h) in
    (
      find_end-IsHeard track epoch start_ns end_ns r max_frames (observed_of es)
          (sym (ap (find_end track epoch start_ns end_ns) w.retained) ∙ found),
      find_end-IsAnchor track epoch start_ns end_ns r s.frames v.chained found,
    )
