-- ===== src/Engine/Ingress/Samples.antt =====
-- The theorems about MyVote-Speaker-Update/src/myvote_engine/ingress_timing.py at small inputs.
use my_vote_server.Base.{ℕ, ◌*◌, ◌≡◌, refl, false, none, some, List, [], ◌∷◌, arith}
use my_vote_server.Engine.Ingress.Answers.{IsHeard-anchor}
use my_vote_server.Engine.Ingress.Windows.Kept.{History-IsWindow}
use my_vote_server.Engine.Ingress.Windows.{
  Event, hears, drops, ends_in_gap, observed_of, breaks, History, begins, then_hears, then_loses,
  IsWindow,
}
use my_vote_server.Engine.Ingress.{
  sample_ns, AudioFrame, check_frame, IngressTimeline, make, gap, refuses, is_broken,
  next_continuity, entry_of, drop_oldest, append, observe, holds_end, find_start, find_end, lookup,
  anchor,
}
use my_vote_server.Engine.Ingress.Receipts.{IsTidy}
use my_vote_server.Engine.Ingress.Lookups.{
  IsAnchor, holds_start, goes_back, IsHeard, at_end, anchor-IsAnchor,
}

abbrev fresh : IngressTimeline
fresh = record {
  max_frames = 2;
  frames = [];
  last = none;
  continuity = 0;
  gap_pending = false;
  observed = 0;
  evicted = 0;
  lookup_misses = 0;
}

-- The k-th frame of a track, each one sample long.
abbrev frame : ℕ → AudioFrame
frame k = record {
  track_id = 1;
  capture_epoch = 1;
  sequence = k;
  start_time_ns = k * sample_ns;
  samples = 1;
}

abbrev hear : ℕ → IngressTimeline → IngressTimeline
unfolding entry_of append
hear k t = append (entry_of (frame k) (10 * k) t) t

-- A gap is told of after the first of three frames.
abbrev events : List Event
events = hears (frame 2) 20 ∷ (hears (frame 1) 10 ∷ (drops ∷ (hears (frame 0) 0 ∷ [])))

abbrev lost : IngressTimeline
unfolding gap
lost = gap (hear 0 fresh)

abbrev heard : IngressTimeline
heard = hear 2 (hear 1 lost)

made : make 2 ≡ some fresh
unfolding make
made = refl

heard_later : History 2 events heard
unfolding observe check_frame refuses entry_of next_continuity is_broken append drop_oldest gap
heard_later =
    then_hears _ (hear 1 lost) heard (frame 2) 20
      (then_hears _ lost (hear 1 lost) (frame 1) 10
        (then_loses _ (hear 0 fresh)
          (then_hears _ fresh (hear 0 fresh) (frame 0) 0 (begins fresh made) refl refl))
        refl refl)
      refl refl

History-IsWindow_example : IsWindow 2 events heard × IsTidy heard
History-IsWindow_example = History-IsWindow 2 events heard heard_later

-- The clause starts in the second frame and ends in the third; the first frame is evicted.
anchor-IsAnchor_example :
    IsHeard 1 1 70000 130000 20 2 (observed_of events) × IsAnchor 1 1 70000 130000 20 heard.frames
unfolding anchor lookup find_end holds_end find_start observe entry_of next_continuity is_broken
    append drop_oldest gap
anchor-IsAnchor_example = anchor-IsAnchor 2 events heard 1 1 70000 130000 20 heard_later refl

IsHeard-anchor_example : (anchor 1 1 70000 130000 heard).0 ≡ some 20
unfolding ends_in_gap observed_of breaks
IsHeard-anchor_example =
    IsHeard-anchor 2 events heard 1 1 70000 130000 20 heard_later (omega arith) (
      at_end 1 _ _ refl refl (omega arith) (omega arith) refl
        (goes_back 1 _ _ _ refl (holds_start 0 _ _ (omega arith))))
