-- ===== src/Stability/Heard.antt =====
-- The window of a StabilityTracker of app/streaming/stability.py as the last texts that it heard.
pub mod Alike
use my_vote_server.Base.{
  ℕ, zero, suc, ◌+◌, ◌-◌, ◌≤◌, ◌<◌, ◌≡◌, refl, sym, ap, subst, ◌∙◌, inl, inr, Bool, Option, some,
  List, [], ◌∷◌, ◌++◌, map, arith, leb→le, Bool-cases, if_ind, is_some, length, take, drop, All,
  length-drop, Text,
}
use my_vote_server.Source.Text.{Unicode, tokens_from, tokenize}
use my_vote_server.Stability.{
  StabilitySettings, StabilityTracker, reset, check_settings, make, now_of, Confidences, remember,
  evaluate, hear, observe, refresh, commit,
}

-- The last n of a list, or all when there are fewer.
abbrev pub last_n {ℓ} : {A : Type ℓ} → ℕ → List A → List A
last_n n xs = drop (length xs - n) xs

-- The tokens of a text, without their places.
abbrev pub words : Unicode → Text → List Text
words u text = map (λ k. k.text) (tokenize u text)

unfoldable pub newest : List Text → Text
newest [] = []
newest (text ∷ []) = text
newest (text ∷ (next ∷ log)) = newest (next ∷ log)

-- A tracker and the texts that it heard since it was made, the oldest first.
pub data Heard (u : Unicode) (v : StabilitySettings) : List Text → StabilityTracker → Type 0 where
  from_make : (t : StabilityTracker) → make v ≡ some t → Heard u v [] t
  then_observes :
      (log : List Text) (t r : StabilityTracker) (text : Text) (sequence : ℕ) (is_final : Bool)
      (confidences : Confidences) (pause : Option ℕ) (clock : ℕ)
      → Heard u v log t
      → observe u text sequence is_final confidences pause clock t ≡ some r
      → Heard u v (log ++ text ∷ []) r
  then_refreshes :
      (log : List Text) (t : StabilityTracker) (clock : ℕ)
      → Heard u v log t
      → Heard u v log (refresh u clock t)
  then_commits :
      (log : List Text) (t r : StabilityTracker) (char_end : ℕ) (allow_final_reconcile : Bool)
      (clock : ℕ)
      → Heard u v log t
      → commit u char_end allow_final_reconcile clock t ≡ some r
      → Heard u v log r

pub record Remembers (u : Unicode) (v : StabilitySettings) (log : List Text) (t : StabilityTracker)
    : Type 0 where
  pub same_settings : t.settings ≡ v
  pub kept : t.history ≡ last_n v.window_size (map (words u) log)
  pub current : t.tokens ≡ tokenize u (newest log)

module _ {ℓ} {A : Type ℓ} where
  drop-append : (k : ℕ) (xs ys : List A) → k ≤ length xs → drop k (xs ++ ys) ≡ drop k xs ++ ys
  drop-append zero xs ys h = refl
  drop-append (suc k) [] ys h = absurd (omega (arith, h))
  drop-append (suc k) (x ∷ xs) ys h = drop-append k xs ys (omega (arith, h))

  drop-nothing : (k : ℕ) → drop {A = A} k [] ≡ []
  drop-nothing zero = refl
  drop-nothing (suc k) = refl

  drop-drop : (k n : ℕ) (xs : List A) → drop n (drop k xs) ≡ drop (k + n) xs
  drop-drop zero n xs = ap (λ j. drop j xs) (omega arith)
  drop-drop (suc k) n [] = drop-nothing n ∙ sym (drop-nothing (suc k + n))
  drop-drop (suc k) n (x ∷ xs) =
      drop-drop k n xs ∙ ap (λ j. drop j (x ∷ xs)) {x = suc (k + n)} {y = suc k + n} (omega arith)

  length-snoc : (xs : List A) (x : A) → length (xs ++ x ∷ []) ≡ length xs + 1
  length-snoc [] x = refl
  length-snoc (y ∷ xs) x = omega (arith, length-snoc xs x)

  -- To keep the last n at each step is to keep them at the end.
  last_n-last_n :
      (n : ℕ) (xs : List A) (x : A) → last_n n (last_n n xs ++ x ∷ []) ≡ last_n n (xs ++ x ∷ [])
  last_n-last_n n xs x =
      ap (λ zs. drop (length zs - n) zs) (sym joined)
      ∙ drop-drop k (length (drop k (xs ++ x ∷ [])) - n) (xs ++ x ∷ [])
      ∙ ap (λ j. drop j (xs ++ x ∷ [])) counts
    where
      k : ℕ
      k = length xs - n

      joined : drop k (xs ++ x ∷ []) ≡ last_n n xs ++ x ∷ []
      joined = drop-append k xs (x ∷ []) (omega arith)

      counts : k + (length (drop k (xs ++ x ∷ [])) - n) ≡ length (xs ++ x ∷ []) - n
      counts = omega (arith, length-drop k (xs ++ x ∷ []), length-snoc xs x)

map-snoc :
    (u : Unicode) (log : List Text) (text : Text)
    → map (words u) (log ++ text ∷ []) ≡ map (words u) log ++ words u text ∷ []
map-snoc u [] text = refl
map-snoc u (x ∷ log) text = ap (◌∷◌ (words u x)) (map-snoc u log text)

pub length-words : (u : Unicode) (log : List Text) → length (map (words u) log) ≡ length log
length-words u [] = refl
length-words u (x ∷ log) = omega (arith, length-words u log)

drop-words :
    (u : Unicode) (k : ℕ) (log : List Text)
    → drop k (map (words u) log) ≡ map (words u) (drop k log)
drop-words u zero log = refl
drop-words u (suc k) [] = refl
drop-words u (suc k) (x ∷ log) = drop-words u k log

pub last_n-words :
    (u : Unicode) (n : ℕ) (log : List Text)
    → last_n n (map (words u) log) ≡ map (words u) (last_n n log)
last_n-words u n log =
    ap (λ k. drop (k - n) (map (words u) log)) (length-words u log)
    ∙ drop-words u (length log - n) log

newest-snoc : (log : List Text) (text : Text) → newest (log ++ text ∷ []) ≡ text
unfolding newest
newest-snoc [] text = refl
newest-snoc (x ∷ []) text = refl
newest-snoc (x ∷ (y ∷ log)) text = newest-snoc (y ∷ log) text

pub newest-drop : (k : ℕ) (log : List Text) → k < length log → newest (drop k log) ≡ newest log
unfolding newest
newest-drop zero log h = refl
newest-drop (suc k) [] h = absurd (omega (arith, h))
newest-drop (suc k) (x ∷ []) h = absurd (omega (arith, h))
newest-drop (suc k) (x ∷ (y ∷ log)) h = newest-drop k (y ∷ log) (omega (arith, h))

pub All-newest :
    (P : Text → Type 0) (text : Text) (log : List Text)
    → P text
    → All P log
    → P (newest (text ∷ log))
unfolding newest
All-newest P text [] p ps = p
All-newest P text (x ∷ log) p ps = All-newest P x log ps.0 ps.1

make-Remembers :
    (u : Unicode) (v : StabilitySettings) (t : StabilityTracker)
    → make v ≡ some t
    → Remembers u v [] t
unfolding make reset newest tokenize tokens_from
make-Remembers u v t e = elim (Bool-cases (check_settings v)) [
  | inr bad ↦ absurd (ground (arith, e, bad))
  | inl fine ↦ subst (Remembers u v []) {x = reset v} {y = t} (ground (arith, e, fine)) (record {
    same_settings = refl;
    kept = sym (drop-nothing (0 - v.window_size));
    current = refl;
  })
]

hear-Remembers :
    (u : Unicode) (v : StabilitySettings) (log : List Text) (t : StabilityTracker) (text : Text)
    (sequence : ℕ) (is_final : Bool) (confidences : Confidences) (pause : Option ℕ) (now : ℕ)
    → Remembers u v log t
    → Remembers u v
        (log ++ text ∷ [])
        (evaluate u now (hear u text sequence is_final confidences pause now t))
unfolding evaluate hear remember
hear-Remembers u v log t text sequence is_final confidences pause now m = record {
  same_settings = m.same_settings;
  kept =
      ap (λ w. last_n w.window_size (t.history ++ words u text ∷ [])) m.same_settings
      ∙ ap (λ h. last_n v.window_size (h ++ words u text ∷ [])) m.kept
      ∙ last_n-last_n v.window_size (map (words u) log) (words u text)
      ∙ ap (last_n v.window_size) (sym (map-snoc u log text));
  current = ap (tokenize u) (sym (newest-snoc log text));
}

pub Heard-Remembers :
    (u : Unicode) (v : StabilitySettings) (log : List Text) (t : StabilityTracker)
    → Heard u v log t
    → Remembers u v log t
unfolding observe refresh commit evaluate
Heard-Remembers u v log r (from_make t e) = make-Remembers u v r e
Heard-Remembers u v log s
      (then_observes before t r text sequence is_final confidences pause clock h e) =
    subst (Remembers u v (before ++ text ∷ []))
      {x = evaluate u (now_of clock t.last_time)
        (hear u text sequence is_final confidences pause (now_of clock t.last_time) t)}
      {y = r} (ground (arith, e))
      (hear-Remembers u v before t text sequence is_final confidences pause
        (now_of clock t.last_time) (Heard-Remembers u v before t h))
Heard-Remembers u v log s (then_refreshes before t clock h) =
    let m = Heard-Remembers u v before t h in
    if_ind (Remembers u v before) (is_some t.sequence) _ _
      (λ e. record { same_settings = m.same_settings; kept = m.kept; current = m.current }) (λ e. m)
Heard-Remembers u v log s (then_commits before t r char_end allow_final_reconcile clock h e) =
    let m = Heard-Remembers u v before t h in
    subst (Remembers u v before)
      {x = evaluate u (now_of clock t.last_time)
        (record t { committed_text = take char_end t.text })}
      {y = r} (ground (arith, e))
      (record { same_settings = m.same_settings; kept = m.kept; current = m.current })

make-window : (v : StabilitySettings) (t : StabilityTracker) → make v ≡ some t → 2 ≤ v.window_size
unfolding make check_settings
make-window v t e = leb→le 2 v.window_size (ground (arith, e))

pub Heard-window :
    (u : Unicode) (v : StabilitySettings) (log : List Text) (t : StabilityTracker)
    → Heard u v log t
    → 2 ≤ v.window_size
Heard-window u v log r (from_make t e) = make-window v r e
Heard-window u v log s
      (then_observes before t r text sequence is_final confidences pause clock h e) =
    Heard-window u v before t h
Heard-window u v log s (then_refreshes before t clock h) = Heard-window u v before t h
Heard-window u v log s (then_commits before t r char_end allow_final_reconcile clock h e) =
    Heard-window u v before t h
