-- ===== src/Stability/Agreement.antt =====
-- What makes a token stable in app/streaming/stability.py.
use my_vote_server.Base.{
  ℕ, zero, suc, ◌≤◌, ◌≡◌, refl, sym, ap, subst, ◌∙◌, ◌⊎◌, inl, inr, false, Option, List, [], ◌∷◌,
  arith, leb, Bool-cases, length, take, Text,
}
use my_vote_server.Source.Text.{Unicode, common_prefix_length}
use my_vote_server.Source.Text.Prefix.{Share, common_prefix_length-Share}
use my_vote_server.Stability.{
  Ratio, StabilityTracker, has_conflict, agreement, available, scores, stable_run, committed_count,
  stable_count, assess,
}

-- All hypotheses begin with the same n tokens.
unfoldable pub AgreeOn : ℕ → List (List Text) → Type 0
AgreeOn n [] = ⊥
AgreeOn n (first ∷ others) = Share n first others

take-take : (n m : ℕ) (xs : List Text) → n ≤ m → take n (take m xs) ≡ take n xs
take-take zero m xs h = refl
take-take (suc n) zero xs h = absurd (omega (arith, h))
take-take (suc n) (suc m) [] h = refl
take-take (suc n) (suc m) (x ∷ xs) h = ap (◌∷◌ x) (take-take n m xs (omega (arith, h)))

Share-fewer :
    (n m : ℕ) (first : List Text) (others : List (List Text))
    → n ≤ m
    → Share m first others
    → Share n first others
Share-fewer n m first [] h s = tt
Share-fewer n m first (x ∷ others) h s = (
  sym (take-take n m x h) ∙ ap (take n) s.0 ∙ take-take n m first h,
  Share-fewer n m first others h s.1,
)

none_shared : common_prefix_length [] ≡ 0
unfolding common_prefix_length
none_shared = refl

common_prefix_length-AgreeOn :
    (n : ℕ) (history : List (List Text))
    → 1 ≤ n
    → n ≤ common_prefix_length history
    → AgreeOn n history
unfolding AgreeOn
common_prefix_length-AgreeOn n [] h k = absurd (omega (arith, h, k, none_shared))
common_prefix_length-AgreeOn n (first ∷ others) h k =
    Share-fewer n (common_prefix_length (first ∷ others)) first others k
      (common_prefix_length-Share first others).0

length-scores :
    (t : StabilityTracker) (now n : ℕ) (seen : List ℕ) (confidences : List (Option ℕ))
    → length (scores t now n seen confidences) ≤ n
unfolding scores
length-scores t now zero seen confidences = omega arith
length-scores t now (suc n) [] confidences = omega arith
length-scores t now (suc n) (s ∷ seen) [] = omega arith
length-scores t now (suc n) (s ∷ seen) (c ∷ confidences) =
    omega (arith, length-scores t now n seen confidences)

stable_run-le : (threshold : ℕ) (rs : List Ratio) → stable_run threshold rs ≤ length rs
unfolding stable_run
stable_run-le threshold [] = omega arith
stable_run-le threshold (r ∷ rs) = ground (arith, stable_run-le threshold rs)

available-le : (u : Unicode) (t : StabilityTracker) → t.final ≡ false → available u t ≤ agreement t
unfolding available
available-le u t f = ground (arith, f)

-- The tokens that pass the threshold.
abbrev run_of : Unicode → ℕ → StabilityTracker → ℕ
run_of u now t = stable_run t.settings.threshold (scores t now (available u t) t.seen t.confidences)

run_of-le :
    (u : Unicode) (now : ℕ) (t : StabilityTracker) → t.final ≡ false → run_of u now t ≤ agreement t
run_of-le u now t f = omega (
  arith,
  stable_run-le t.settings.threshold (scores t now (available u t) t.seen t.confidences),
  length-scores t now (available u t) t.seen t.confidences,
  available-le u t f,
)

agreement-AgreeOn :
    (n : ℕ) (t : StabilityTracker)
    → 1 ≤ n
    → n ≤ agreement t
    → (length t.history ≡ t.settings.window_size) × AgreeOn n t.history
unfolding agreement
agreement-AgreeOn n t h k =
    (ground (arith, h, k), common_prefix_length-AgreeOn n t.history h (ground (arith, h, k)))

pub assess-AgreeOn :
    (u : Unicode) (now : ℕ) (t : StabilityTracker)
    → t.final ≡ false
    → ((assess u now t).stable_token_count ≤ committed_count t)
      ⊎ ((length t.history ≡ t.settings.window_size)
          × AgreeOn (assess u now t).stable_token_count t.history)
unfolding assess stable_count
assess-AgreeOn u now t f = elim (Bool-cases (has_conflict t)) [
  | inl c ↦ inl (ground (arith, c, f))
  | inr c ↦ elim (Bool-cases (leb (run_of u now t) (committed_count t))) [
    | inl few ↦ inl (ground (arith, c, few))
    | inr more ↦ inr (
        subst (λ n. (length t.history ≡ t.settings.window_size) × AgreeOn n t.history)
          {x = run_of u now t} {y = (assess u now t).stable_token_count} (ground (arith, c, more))
          (agreement-AgreeOn (run_of u now t) t (ground (arith, more)) (run_of-le u now t f)))
  ]
]
