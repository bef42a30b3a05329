-- ===== src/Source/Revision/Kept.antt =====
-- What a plan of app/streaming/revision.py keeps and what it gives up.
use my_vote_server.Base.{
  ℕ, zero, suc, ◌+◌, ◌-◌, ◌≤◌, ◌<◌, ◌≡◌, refl, sym, ap, subst, ◌∙◌, ◌≢◌, ◌↔◌, ◌⊎◌, inl, inr, Bool,
  true, false, not, Option, none, some, List, [], ◌∷◌, ◌++◌, append-nil, arith, ltb, ltb→lt,
  Bool-cases, if_ind, get_or_else, length, take, drop, All, Text, text_eq, text_eq→eq, text_eq_refl,
  slice,
}
use my_vote_server.Source.Text.{Unicode}
use my_vote_server.Source.Revision.{
  RevisionSegment, RevisionPlan, common_length, first_difference, first_touched, last_stop,
  rollback_point, plan_revision,
}
use my_vote_server.Source.Revision.Difference.{
  common_length-take, first_difference-le, IsDifference, first_difference-IsDifference,
}

take-nil {ℓ} : {A : Type ℓ} (n : ℕ) → take n (let e : List A = [] in e) ≡ []
take-nil zero = refl
take-nil (suc n) = refl

drop-nil {ℓ} : {A : Type ℓ} (n : ℕ) → drop n (let e : List A = [] in e) ≡ []
drop-nil zero = refl
drop-nil (suc n) = refl

-- A slice only reads the text in front of its end.
slice-drop : (start stop : ℕ) (text : Text) → slice start stop text ≡ drop start (take stop text)
slice-drop zero stop text = let whole : stop - 0 ≡ stop = omega arith in ap (λ k. take k text) whole
slice-drop (suc start) stop [] = take-nil _ ∙ sym (ap (drop (suc start)) (take-nil stop))
slice-drop (suc start) zero (x ∷ text) =
    let nothing : 0 - suc start ≡ 0 = omega arith in ap (λ k. take k (drop start text)) nothing
slice-drop (suc start) (suc stop) (x ∷ text) =
    let shorter : suc stop - suc start ≡ stop - start = omega arith in
    ap (λ k. take k (drop start text)) shorter ∙ slice-drop start stop text

-- The text of a span is the same in both texts.
abbrev pub SameText : Text → Text → RevisionSegment → Type 0
SameText old new s = slice s.start s.stop old ≡ slice s.start s.stop new

module _ (old new : Text) (d : ℕ) (common : d ≤ common_length old new) where
  -- Every segment ends before the difference, or one is the first that does not.
  abbrev Touched : List RevisionSegment → ℕ → Option (ℕ × ℕ) → Type 0
  Touched segments position none = All (SameText old new) segments × All (λ s. s.stop ≤ d) segments
  Touched segments position (some (index, boundary)) =
      (kept : List RevisionSegment) × (s : RevisionSegment) × (rest : List RevisionSegment)
      × (segments ≡ kept ++ s ∷ rest)
      × (index ≡ position + length kept)
      × (boundary ≡ s.start)
      × (d < s.stop)
      × All (SameText old new) kept
      × All (λ x. x.stop ≤ d) kept

  kept_text : (s : RevisionSegment) → s.stop ≤ d → SameText old new s
  kept_text s h =
      slice-drop s.start s.stop old
      ∙ ap (drop s.start) (common_length-take old new s.stop (omega arith))
      ∙ sym (slice-drop s.start s.stop new)

  Touched-next :
      (s : RevisionSegment) (segments : List RevisionSegment) (position : ℕ) (o : Option (ℕ × ℕ))
      → s.stop ≤ d
      → Touched segments (suc position) o
      → Touched (s ∷ segments) position o
  Touched-next s segments position none before t = ((kept_text s before, t.0), (before, t.1))
  Touched-next s segments position (some (index, boundary)) before
        (kept, touched, rest, e, i, b, d_lt, same, early) =
      (
        s ∷ kept,
        touched,
        rest,
        ap (◌∷◌ s) e,
        omega arith,
        b,
        d_lt,
        (kept_text s before, same),
        (before, early),
      )

  first_touched-Touched :
      (segments : List RevisionSegment) (position : ℕ)
      → Touched segments position (first_touched d position segments)
  unfolding first_touched
  first_touched-Touched [] position = (tt, tt)
  first_touched-Touched (s ∷ segments) position =
      let later = first_touched-Touched segments (suc position) in
      if_ind (Touched (s ∷ segments) position) (ltb d s.stop) _ _
        (λ behind. ([], s, segments, refl, omega arith, refl, ltb→lt d s.stop behind, tt, tt))
        (λ before. Touched-next s segments position _ (ground arith) later)

-- What a plan says of the segments: those it keeps end in front of the difference, and have the
-- same text in the old and in the new hypothesis; if it does not keep them all, the first that it
-- gives up reaches behind the difference, and the rollback starts there.
pub record IsPlan (u : Unicode) (old new : Text) (segments : List RevisionSegment)
    (plan : RevisionPlan) : Type 0 where
  pub kept : List RevisionSegment
  pub given_up : List RevisionSegment
  pub split : segments ≡ kept ++ given_up
  pub index : plan.rollback_segment_index ≡ length kept
  pub same_text : All (SameText old new) kept
  pub difference : ℕ
  pub is_difference : IsDifference u old new difference
  pub in_front : old ≢ new → All (λ s. s.stop ≤ difference) kept
  pub touched :
      (given_up ≡ [])
      ⊎ ((s : RevisionSegment) × (rest : List RevisionSegment) × (given_up ≡ s ∷ rest)
          × (difference < s.stop)
          × (plan.rollback_char_end ≡ s.start)
          × (old ≢ new))
  pub replacement : plan.replacement_text ≡ drop plan.rollback_char_end new
  pub changes : (plan.changed ≡ true) ↔ (old ≢ new)

same-All : (text : Text) (segments : List RevisionSegment) → All (SameText text text) segments
same-All text [] = tt
same-All text (s ∷ segments) = (refl, same-All text segments)

not-text_eq : (old new : Text) → (not (text_eq old new) ≡ true) ↔ (old ≢ new)
not-text_eq old new = (
  (λ h e. ground (arith, text_eq_refl new, ap (text_eq old) e, ap (λ t. text_eq t new) e)),
  (λ n. elim (Bool-cases (text_eq old new)) [
    | inl same ↦ absurd (n (text_eq→eq old new same))
    | inr differ ↦ rw differ
  ]),
)

whole-IsPlan :
    (u : Unicode) (old new : Text) (segments : List RevisionSegment) (boundary : ℕ) (changed : Bool)
    → All (SameText old new) segments
    → (old ≢ new → All (λ s. s.stop ≤ first_difference u old new) segments)
    → (changed ≡ true) ↔ (old ≢ new)
    → IsPlan u old new segments (record {
      rollback_segment_index = length segments;
      rollback_char_end = boundary;
      replacement_text = drop boundary new;
      changed = changed;
    })
whole-IsPlan u old new segments boundary changed same front changes = record {
  kept = segments;
  given_up = [];
  split = sym (append-nil segments);
  index = refl;
  same_text = same;
  difference = first_difference u old new;
  is_difference = first_difference-IsDifference u old new;
  in_front = front;
  touched = inl refl;
  replacement = refl;
  changes = changes;
}

-- A plan from the result of the search for the first touched segment.
planned :
    (u : Unicode) (old new : Text) (segments : List RevisionSegment) (o : Option (ℕ × ℕ))
    (whole : ℕ)
    → old ≢ new
    → Touched old new (first_difference u old new) (first_difference-le u old new) segments 0 o
    → let (index, boundary) = get_or_else o (length segments, whole) in
      IsPlan u old new segments (record {
        rollback_segment_index = index;
        rollback_char_end = boundary;
        replacement_text = drop boundary new;
        changed = true;
      })
planned u old new segments none whole differ t =
    whole-IsPlan u old new segments whole true t.0 (λ _. t.1) ((λ _. differ), (λ _. refl))
planned u old new segments (some (index, boundary)) whole differ
      (kept, s, rest, e, i, b, d_lt, same, early) =
    record {
      kept = kept;
      given_up = s ∷ rest;
      split = e;
      index = omega arith;
      same_text = same;
      difference = first_difference u old new;
      is_difference = first_difference-IsDifference u old new;
      in_front = λ _. early;
      touched = inr (s, rest, refl, d_lt, b, differ);
      replacement = refl;
      changes = ((λ _. differ), (λ _. refl));
    }

rollback-IsPlan :
    (u : Unicode) (old new : Text) (segments : List RevisionSegment) (changed : Bool)
    → not (text_eq old new) ≡ changed
    → let (index, boundary) = rollback_point changed (first_difference u old new) segments in
      IsPlan u old new segments (record {
        rollback_segment_index = index;
        rollback_char_end = boundary;
        replacement_text = drop boundary new;
        changed = changed;
      })
unfolding rollback_point
rollback-IsPlan u old new segments true e =
    planned u old new segments _ (last_stop segments) ((not-text_eq old new).0 e) (
      first_touched-Touched old new (first_difference u old new) (first_difference-le u old new)
        segments 0)
rollback-IsPlan u old new segments false e =
    let same : old ≡ new = text_eq→eq old new (ground arith) in
    whole-IsPlan u old new segments (last_stop segments) false
      (subst (λ t. All (SameText old t) segments) same (same-All old segments))
      (λ n. absurd (n same)) ((λ h. cc), (λ n. absurd (n same)))

-- A plan keeps just the segments that end in front of the difference between the hypotheses, and
-- their text is the same in both; it gives up the first one that reaches behind the difference, and
-- all after it. The difference is where the texts part, or where the new text goes on inside of a
-- word, that word's start. Where the texts are equal it keeps all.
pub plan_revision-IsPlan :
    (u : Unicode) (old new : Text) (segments : List RevisionSegment) (plan : RevisionPlan)
    → plan_revision u old new segments ≡ some plan
    → IsPlan u old new segments plan
unfolding plan_revision
plan_revision-IsPlan u old new segments plan e =
    subst (IsPlan u old new segments) (ground arith)
      (rollback-IsPlan u old new segments (not (text_eq old new)) refl)
