-- ===== src/Engine/Ingress/Answers.antt =====
-- When the timeline of MyVote-Speaker-Update/src/myvote_engine/ingress_timing.py answers a lookup.
use my_vote_server.Engine.Ingress.Lookups.{
  Chain-tail, Reaches, holds_start, goes_back, IsHeard, at_end, earlier,
}
use my_vote_server.Engine.Ingress.Windows.Kept.{History-IsWindow}
use my_vote_server.Engine.Ingress.Windows.{
  Event, Observed, observed_of, breaks, run_of, receipt_of, window, History,
}
use my_vote_server.Engine.Ingress.Receipts.{Chain}
use my_vote_server.Engine.Ingress.{
  Receipt, IngressTimeline, holds_end, find_start, find_end, lookup, anchor,
}
use my_vote_server.Base.{
  ℕ, suc, ◌≤◌, ◌<◌, ◌≡◌, refl, sym, ap, subst, ◌∙◌, true, false, some, List, ◌∷◌, arith,
}

joined-run :
    (o p : Observed) (os : List Observed)
    → breaks o p ≡ false
    → run_of (o ∷ (p ∷ os)) ≡ run_of (p ∷ os)
unfolding run_of
joined-run o p os b = ground (arith, b)

Reaches-find_start :
    (start_ns n : ℕ) (e : Receipt) (o : Observed) (os : List Observed)
    → Reaches start_ns n (o ∷ os)
    → run_of (o ∷ os) ≡ e.continuity
    → find_start start_ns e (window n (o ∷ os)) ≡ some e.received_at
unfolding find_start window receipt_of
Reaches-find_start start_ns n e o os (holds_start m q qs b) same = ground (arith, b, same)
Reaches-find_start start_ns n e o os (goes_back m q p ps unbroken reaches) same = ground (
  arith,
  same,
  Reaches-find_start start_ns m e p ps reaches (sym (joined-run q p ps unbroken) ∙ same),
)

-- A frame that is newer than the one that holds the end of the clause starts behind that end.
newer_starts :
    (track epoch start_ns end_ns r n : ℕ) (x : Receipt) (os : List Observed)
    → Chain (x ∷ window n os)
    → IsHeard track epoch start_ns end_ns r n os
    → end_ns ≤ x.start_ns
unfolding Chain window receipt_of
newer_starts track epoch start_ns end_ns r n x os c (at_end m o ps tr ep late before got reaches) =
    omega (arith, c.1.after, before)
newer_starts track epoch start_ns end_ns r n x os c (earlier m o ps heard) = omega (
  arith,
  c.1.after,
  newer_starts track epoch start_ns end_ns r m (receipt_of (run_of (o ∷ ps)) o) ps c.2 heard,
)

holds_end-made :
    (track epoch end_ns : ℕ) (x : Receipt)
    → x.track ≡ track
    → x.epoch ≡ epoch
    → x.start_ns < end_ns
    → end_ns ≤ x.end_ns
    → holds_end track epoch end_ns x ≡ true
unfolding holds_end
holds_end-made track epoch end_ns x tr ep a b = ground (arith, tr, ep, a, b)

not_held :
    (track epoch end_ns : ℕ) (x : Receipt)
    → end_ns ≤ x.start_ns
    → holds_end track epoch end_ns x ≡ false
unfolding holds_end
not_held track epoch end_ns x h = ground (arith, h)

IsHeard-find_end :
    (track epoch start_ns end_ns r n : ℕ) (os : List Observed)
    → Chain (window n os)
    → IsHeard track epoch start_ns end_ns r n os
    → find_end track epoch start_ns end_ns (window n os) ≡ some r
unfolding find_end window receipt_of
IsHeard-find_end track epoch start_ns end_ns r n os c
      (at_end m o ps tr ep late before got reaches) =
    let x = receipt_of (run_of (o ∷ ps)) o in
    ground (
      arith,
      holds_end-made track epoch end_ns x tr ep late before,
      Reaches-find_start start_ns (suc m) x o ps reaches refl,
      got,
    )
IsHeard-find_end track epoch start_ns end_ns r n os c (earlier m o ps heard) =
    let x = receipt_of (run_of (o ∷ ps)) o in
    ground (
      arith,
      not_held track epoch end_ns x (newer_starts track epoch start_ns end_ns r m x ps c heard),
      IsHeard-find_end track epoch start_ns end_ns r m ps (Chain-tail x (window m ps) c) heard,
    )

-- A clause that ends after its start is always answered when the frames for it are there: when
-- among the newest max_frames of the history is one of its track and epoch that holds its end and
-- from which one gets back to its start without a break, the answer is the time at which that frame
-- was received.
pub IsHeard-anchor :
    (max_frames : ℕ) (es : List Event) (s : IngressTimeline) (track epoch start_ns end_ns r : ℕ)
    → History max_frames es s
    → start_ns < end_ns
    → IsHeard track epoch start_ns end_ns r max_frames (observed_of es)
    → (anchor track epoch start_ns end_ns s).0 ≡ some r
unfolding anchor lookup
IsHeard-anchor max_frames es s track epoch start_ns end_ns r p lasts heard =
    let (w, v) = History-IsWindow max_frames es s p in
    let found : find_end track epoch start_ns end_ns s.frames ≡ some r =
      ap (find_end track epoch start_ns end_ns) w.retained
      ∙ IsHeard-find_end track epoch start_ns end_ns r max_frames (observed_of es)
          (subst Chain {x = s.frames} {y = window max_frames (observed_of es)} w.retained v.chained)
          heard in
    ground (arith, lasts, found)
