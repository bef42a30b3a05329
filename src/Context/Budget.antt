-- ===== src/Context/Budget.antt =====
-- What app/context/manager.py keeps.
use my_vote_server.Base.{
  ℕ, ◌+◌, ◌-◌, ◌≤◌, ◌<◌, ◌≡◌, refl, sym, ap, subst, ◌∙◌, ◌⊎◌, inl, inr, ◌||◌, List, [], ◌∷◌, ◌++◌,
  reverse, append-nil, append_assoc, reverse-cons, reverse-reverse, arith, ltb, leb, if_ind, length,
}
use my_vote_server.Context.{ContextEntry, ContextManager, cost, fill, replace}

pub total_cost : List ContextEntry → ℕ
total_cost [] = 0
total_cost (e ∷ rest) = cost e + total_cost rest

-- The entries that are kept are the last ones, within both limits, and one more would not fit.
pub record IsFilled (most budget : ℕ) (entries kept : List ContextEntry) : Type 0 where
  pub dropped : List ContextEntry
  pub split : entries ≡ dropped ++ kept
  pub few : length kept ≤ most
  pub cheap : total_cost kept ≤ budget
  pub full :
      (dropped ≡ [])
      ⊎ ((earlier : List ContextEntry) × (e : ContextEntry) × (dropped ≡ earlier ++ e ∷ [])
          × ((length kept ≡ most) ⊎ (budget < cost e + total_cost kept)))

fill-IsFilled :
    (most budget left : ℕ) (earlier kept : List ContextEntry)
    → length kept ≤ most
    → left + total_cost kept ≡ budget
    → IsFilled most budget (reverse earlier ++ kept) (fill most left kept earlier)
unfolding fill total_cost
fill-IsFilled most budget left [] kept few spent = record {
  dropped = [];
  split = refl;
  few = few;
  cheap = omega arith;
  full = inl refl;
}
fill-IsFilled most budget left (e ∷ earlier) kept few spent =
    if_ind (IsFilled most budget (reverse (e ∷ earlier) ++ kept))
      (leb most (length kept) || ltb left (cost e)) _ _
      (λ stop. record {
        dropped = reverse (e ∷ earlier);
        split = refl;
        few = few;
        cheap = omega arith;
        full = inr (reverse earlier, e, reverse-cons e earlier, ground arith);
      })
      (λ go.
        subst (λ l. IsFilled most budget l (fill most (left - cost e) (e ∷ kept) earlier))
          (sym (
            ap (λ l. l ++ kept) (reverse-cons e earlier)
            ∙ append_assoc (reverse earlier) (e ∷ []) kept))
          (fill-IsFilled most budget (left - cost e) earlier (e ∷ kept) (ground arith)
            (ground arith)))

-- The context is the longest run of the last entries that stays within the number of segments and
-- the budget of bytes.
pub replace-IsFilled :
    (entries : List ContextEntry) (m : ContextManager)
    → IsFilled m.max_segments m.max_tokens entries (replace entries m).entries
unfolding replace total_cost
replace-IsFilled entries m =
    subst (λ l. IsFilled m.max_segments m.max_tokens l (replace entries m).entries)
      (append-nil _ ∙ reverse-reverse entries)
      (fill-IsFilled m.max_segments m.max_tokens m.max_tokens (reverse entries) [] (omega arith)
        (omega arith))
