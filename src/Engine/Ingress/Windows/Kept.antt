-- ===== src/Engine/Ingress/Windows/Kept.antt =====
-- That the timeline of MyVote-Speaker-Update/src/myvote_engine/ingress_timing.py is a window.
use my_vote_server.Engine.Ingress.Windows.{
  Event, hears, Observed, ends_in_gap, observed_of, breaks, run_of, receipt_of, window, newest,
  History, begins, then_hears, then_loses, then_anchors, IsWindow,
}
use my_vote_server.Base.{
  ℕ, zero, suc, ◌≤◌, ◌≡◌, refl, sym, ap, subst, ◌∙◌, inl, inr, Bool, false, ◌&&◌, none, some, List,
  [], ◌∷◌, arith, leb, ◌==◌, if◌then◌else◌, Bool-cases, if_ind, is_some, length,
}
use my_vote_server.Engine.Ingress.Receipts.{
  IsTidy, observe-IsTidy, loses, anchor-IsTidy, Step-IsTidy, make-IsTidy,
}
use my_vote_server.Engine.Ingress.{
  AudioFrame, Receipt, IngressTimeline, make, gap, is_broken, next_continuity, entry_of,
  drop_oldest, append, observe, lookup, anchor,
}

next_continuity-run_of :
    (f : AudioFrame) (received_at : ℕ) (es : List Event) (os : List Observed) (t : IngressTimeline)
    → t.last ≡ newest os
    → t.continuity ≡ run_of os
    → t.gap_pending ≡ ends_in_gap es
    → next_continuity f t
      ≡ run_of (record { frame = f; received_at = received_at; gap_before = ends_in_gap es } ∷ os)
unfolding newest run_of receipt_of next_continuity is_broken breaks
next_continuity-run_of f received_at es [] t l c g = ground (arith, l, c)
next_continuity-run_of f received_at es (p ∷ os) t l c g = ground (arith, l, c, g)

entry_of-receipt_of :
    (f : AudioFrame) (received_at k : ℕ) (b : Bool) (t : IngressTimeline)
    → next_continuity f t ≡ k
    → entry_of f received_at t
      ≡ receipt_of k (record { frame = f; received_at = received_at; gap_before = b })
unfolding receipt_of entry_of
entry_of-receipt_of f received_at k b t e =
    ap (λ n. receipt_of n (record { frame = f; received_at = received_at; gap_before = b })) e

full_shift :
    (x : Receipt) (m : ℕ) (w : List Receipt)
    → (if length (x ∷ w) == suc (suc m) then drop_oldest (x ∷ w) else x ∷ w)
      ≡ x ∷ (if length w == suc m then drop_oldest w else w)
unfolding drop_oldest
full_shift x m [] = ground arith
full_shift x m (y ∷ w) = elim (Bool-cases (length (y ∷ w) == suc m)) [
  | inl e ↦ ground (arith, e)
  | inr e ↦ ground (arith, e)
]

window_full :
    (m : ℕ) (os : List Observed)
    → (if length (window (suc m) os) == suc m
        then drop_oldest (window (suc m) os)
        else window (suc m) os)
      ≡ window m os
unfolding window drop_oldest
window_full zero [] = refl
window_full (suc m) [] = ground arith
window_full zero (o ∷ os) = refl
window_full (suc m) (o ∷ os) =
    full_shift (receipt_of (run_of (o ∷ os)) o) m (window (suc m) os)
    ∙ ap (◌∷◌ (receipt_of (run_of (o ∷ os)) o)) (window_full m os)

make_room :
    (m max_frames : ℕ) (os : List Observed) (frames : List Receipt)
    → max_frames ≡ suc m
    → frames ≡ window (suc m) os
    → (if length frames == max_frames then drop_oldest frames else frames) ≡ window m os
make_room m max_frames os frames k e =
    ap (λ n. if length frames == n then drop_oldest frames else frames) k
    ∙ ap (λ xs. if length xs == suc m then drop_oldest xs else xs) e
    ∙ window_full m os

append-IsWindow :
    (m : ℕ) (es : List Event) (f : AudioFrame) (received_at : ℕ) (t : IngressTimeline)
    → IsWindow (suc m) es t
    → IsWindow (suc m) (hears f received_at ∷ es) (append (entry_of f received_at t) t)
unfolding append entry_of observed_of ends_in_gap window newest
append-IsWindow m es f received_at t w = record {
  same_max = w.same_max;
  retained =
      ap (λ x. x ∷ (if length t.frames == t.max_frames then drop_oldest t.frames else t.frames))
        entry
      ∙ ap (◌∷◌ (receipt_of (run_of os) o))
          (make_room m t.max_frames (observed_of es) t.frames w.same_max w.retained);
  last_heard = ap some entry;
  run = counts;
  gap_kept = refl;
  all_counted = ground (arith, w.all_counted);
}
  where
    o : Observed
    o = record { frame = f; received_at = received_at; gap_before = ends_in_gap es }

    os : List Observed
    os = o ∷ observed_of es

    counts : (entry_of f received_at t).continuity ≡ run_of os
    counts =
        next_continuity-run_of f received_at es (observed_of es) t w.last_heard w.run w.gap_kept

    entry : entry_of f received_at t ≡ receipt_of (run_of os) o
    entry = entry_of-receipt_of f received_at (run_of os) (ends_in_gap es) t counts

observe-IsWindow :
    (max_frames : ℕ) (es : List Event) (f : AudioFrame) (received_at : ℕ) (t r : IngressTimeline)
    → 1 ≤ t.max_frames
    → IsWindow max_frames es t
    → observe f (some received_at) t ≡ some r
    → IsWindow max_frames (hears f received_at ∷ es) r
unfolding observe
observe-IsWindow zero es f received_at t r h w e = absurd (omega (arith, h, w.same_max))
observe-IsWindow (suc m) es f received_at t r h w e =
    subst (IsWindow (suc m) (hears f received_at ∷ es)) {x = append (entry_of f received_at t) t}
      {y = r} (ground (arith, e)) (append-IsWindow m es f received_at t w)

anchor-IsWindow :
    (max_frames : ℕ) (es : List Event) (track epoch start_ns end_ns : ℕ) (t : IngressTimeline)
    → IsWindow max_frames es t
    → IsWindow max_frames es (anchor track epoch start_ns end_ns t).1
unfolding anchor
anchor-IsWindow max_frames es track epoch start_ns end_ns t w =
    if_ind (IsWindow max_frames es) (is_some (lookup track epoch start_ns end_ns t)) _ _ (λ e. w)
      (λ e. record {
        same_max = w.same_max;
        retained = w.retained;
        last_heard = w.last_heard;
        run = w.run;
        gap_kept = w.gap_kept;
        all_counted = w.all_counted;
      })

window-nothing : (n : ℕ) → window n [] ≡ []
unfolding window
window-nothing zero = refl
window-nothing (suc n) = refl

make-IsWindow :
    (max_frames : ℕ) (t : IngressTimeline) → make max_frames ≡ some t → IsWindow max_frames [] t
unfolding make observed_of newest run_of ends_in_gap
make-IsWindow max_frames t e = elim (Bool-cases (leb 1 max_frames && leb max_frames 200000)) [
  | inr bad ↦ absurd (ground (arith, e, bad))
  | inl fine ↦
      subst (IsWindow max_frames []) {x = fresh} {y = t} (ground (arith, e, fine)) (record {
        same_max = refl;
        retained = sym (window-nothing max_frames);
        last_heard = refl;
        run = refl;
        gap_kept = refl;
        all_counted = refl;
      })
]
  where
    fresh : IngressTimeline
    fresh = record {
      max_frames = max_frames;
      frames = [];
      last = none;
      continuity = 0;
      gap_pending = false;
      observed = 0;
      evicted = 0;
      lookup_misses = 0;
    }

-- A timeline after any frames, gaps and lookups is the window of that history. It retains the
-- receipts of the newest frames, as many as max_frames allows, with the frames' own track, epoch,
-- times and number and the time at which each was received, and the run of a frame is the number of
-- breaks up to it: a gap that was told of in between, another epoch, a number that does not follow
-- or a start that is not the end of the frame before. A gap is pending when nothing was heard
-- since. Of the retained frames, from the newest back, each is of the same track, and later in its
-- times and its receipt.
pub History-IsWindow :
    (max_frames : ℕ) (es : List Event) (t : IngressTimeline)
    → History max_frames es t
    → IsWindow max_frames es t × IsTidy t
unfolding gap ends_in_gap observed_of
History-IsWindow max_frames es r (begins t e) =
    (make-IsWindow max_frames t e, make-IsTidy max_frames t e)
History-IsWindow max_frames es r (then_hears before s t f received_at h c e) =
    let (w, v) = History-IsWindow max_frames before s h in
    (
      observe-IsWindow max_frames before f received_at s t v.positive w e,
      observe-IsTidy f (some received_at) s t c v e,
    )
History-IsWindow max_frames es r (then_loses before s h) =
    let (w, v) = History-IsWindow max_frames before s h in
    (
      record {
        same_max = w.same_max;
        retained = w.retained;
        last_heard = w.last_heard;
        run = w.run;
        gap_kept = refl;
        all_counted = w.all_counted;
      },
      Step-IsTidy v loses,
    )
History-IsWindow max_frames es r (then_anchors before s track epoch start_ns end_ns h) =
    let (w, v) = History-IsWindow max_frames before s h in
    (
      anchor-IsWindow max_frames before track epoch start_ns end_ns s w,
      anchor-IsTidy track epoch start_ns end_ns s v,
    )
