-- ===== src/Engine/Ingress/Windows.antt =====
-- The timeline of MyVote-Speaker-Update/src/myvote_engine/ingress_timing.py as the window of a
-- history: what it has to be for the frames and the gaps that it was told of.
pub mod Kept
use my_vote_server.Base.{
  ℕ, zero, suc, ◌+◌, ◌≡◌, Bool, true, false, not, ◌||◌, Option, none, some, List, [], ◌∷◌, ◌==◌,
  if◌then◌else◌, length,
}
use my_vote_server.Engine.Ingress.{
  AudioFrame, check_frame, end_time_ns, Receipt, IngressTimeline, make, gap, observe, anchor,
}

-- A frame that was observed, with the time of its receipt, or a gap.
pub data Event : Type 0 where
  hears : AudioFrame → ℕ → Event
  drops : Event

-- A frame, its receipt, and whether a gap was told of since the frame before.
pub record Observed : Type 0 where
  pub frame : AudioFrame
  pub received_at : ℕ
  pub gap_before : Bool

unfoldable pub ends_in_gap : List Event → Bool
ends_in_gap [] = false
ends_in_gap (hears f received_at ∷ es) = false
ends_in_gap (drops ∷ es) = true

-- The frames of a history, the newest first, as the history itself.
unfoldable pub observed_of : List Event → List Observed
unfolding ends_in_gap
observed_of [] = []
observed_of (hears f received_at ∷ es) =
    record { frame = f; received_at = received_at; gap_before = ends_in_gap es } ∷ observed_of es
observed_of (drops ∷ es) = observed_of es

-- A frame does not go on where the one before it ended.
unfoldable pub breaks : Observed → Observed → Bool
breaks o p =
    o.gap_before
    || not (o.frame.capture_epoch == p.frame.capture_epoch)
    || not (o.frame.sequence == p.frame.sequence + 1)
    || not (o.frame.start_time_ns == end_time_ns p.frame)

-- The number of breaks up to the newest frame.
unfoldable pub run_of : List Observed → ℕ
unfolding breaks
run_of [] = 0
run_of (o ∷ []) = 0
run_of (o ∷ (p ∷ os)) = let before = run_of (p ∷ os) in if breaks o p then before + 1 else before

unfoldable pub receipt_of : ℕ → Observed → Receipt
receipt_of run o = record {
  track = o.frame.track_id;
  epoch = o.frame.capture_epoch;
  start_ns = o.frame.start_time_ns;
  end_ns = end_time_ns o.frame;
  sequence = o.frame.sequence;
  received_at = o.received_at;
  continuity = run;
}

-- The receipts of the newest frames, as many as are retained.
unfoldable pub window : ℕ → List Observed → List Receipt
unfolding receipt_of run_of
window zero os = []
window (suc n) [] = []
window (suc n) (o ∷ os) = receipt_of (run_of (o ∷ os)) o ∷ window n os

unfoldable pub newest : List Observed → Option Receipt
unfolding receipt_of run_of
newest [] = none
newest (o ∷ os) = some (receipt_of (run_of (o ∷ os)) o)

-- A timeline and what happened to it since it was made.
pub data History (max_frames : ℕ) : List Event → IngressTimeline → Type 0 where
  begins : (t : IngressTimeline) → make max_frames ≡ some t → History max_frames [] t
  then_hears :
      (es : List Event) (t r : IngressTimeline) (f : AudioFrame) (received_at : ℕ)
      → History max_frames es t
      → check_frame f ≡ true
      → observe f (some received_at) t ≡ some r
      → History max_frames (hears f received_at ∷ es) r
  then_loses :
      (es : List Event) (t : IngressTimeline)
      → History max_frames es t
      → History max_frames (drops ∷ es) (gap t)
  then_anchors :
      (es : List Event) (t : IngressTimeline) (track epoch start_ns end_ns : ℕ)
      → History max_frames es t
      → History max_frames es (anchor track epoch start_ns end_ns t).1

-- The timeline is the window of its history.
pub record IsWindow (max_frames : ℕ) (es : List Event) (t : IngressTimeline) : Type 0 where
  pub same_max : t.max_frames ≡ max_frames
  pub retained : t.frames ≡ window max_frames (observed_of es)
  pub last_heard : t.last ≡ newest (observed_of es)
  pub run : t.continuity ≡ run_of (observed_of es)
  pub gap_kept : t.gap_pending ≡ ends_in_gap es
  pub all_counted : t.observed ≡ length (observed_of es)
