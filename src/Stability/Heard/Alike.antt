-- ===== src/Stability/Heard/Alike.antt =====
-- How the last texts that a StabilityTracker of app/streaming/stability.py heard begin.
use my_vote_server.Stability.Heard.{
  last_n, words, newest, Heard, Remembers, length-words, last_n-words, newest-drop, All-newest,
  Heard-Remembers, Heard-window,
}
use my_vote_server.Base.{
  ℕ, ◌-◌, ◌≤◌, ◌≡◌, refl, sym, ap, subst, ◌∙◌, ◌⊎◌, inl, inr, false, List, [], ◌∷◌, map, arith,
  length, take, All, length-drop, Text,
}
use my_vote_server.Source.Text.{Unicode, tokenize}
use my_vote_server.Source.Text.Prefix.{Share}
use my_vote_server.Stability.{StabilitySettings, StabilityTracker, committed_count, assess}
use my_vote_server.Stability.Agreement.{AgreeOn, assess-AgreeOn}

-- All of these texts begin with the same n tokens as the given one.
unfoldable pub BeginAlike : Unicode → ℕ → Text → List Text → Type 0
BeginAlike u n text = All (λ other. take n (words u other) ≡ take n (words u text))

Share-words :
    (u : Unicode) (n : ℕ) (first : Text) (others : List Text)
    → Share n (words u first) (map (words u) others)
    → BeginAlike u n first others
unfolding BeginAlike
Share-words u n first [] s = tt
Share-words u n first (x ∷ others) s = (s.0, Share-words u n first others s.1)

BeginAlike-subst :
    (u : Unicode) (n : ℕ) (x y : Text) (others : List Text)
    → take n (words u x) ≡ take n (words u y)
    → BeginAlike u n x others
    → BeginAlike u n y others
unfolding BeginAlike
BeginAlike-subst u n x y [] e s = tt
BeginAlike-subst u n x y (z ∷ others) e s = (s.0 ∙ e, BeginAlike-subst u n x y others e s.1)

AgreeOn-BeginAlike :
    (u : Unicode) (n : ℕ) (log : List Text)
    → AgreeOn n (map (words u) log)
    → BeginAlike u n (newest log) log
unfolding AgreeOn BeginAlike
AgreeOn-BeginAlike u n [] a = absurd a
AgreeOn-BeginAlike u n (x ∷ log) a =
    let alike = Share-words u n x log a in
    let same = All-newest (λ other. take n (words u other) ≡ take n (words u x)) x log refl alike in
    (sym same, BeginAlike-subst u n x (newest (x ∷ log)) log (sym same) alike)

-- Whatever a tracker that was made has heard, and however it was refreshed and committed: the
-- tokens are those of the last text heard; and while the hypothesis is not final, at any time,
-- either the stable tokens are all of the protected prefix, or at least window_size texts were
-- heard and the last window_size of them all begin with the stable tokens of the last one.
pub assess-BeginAlike :
    (u : Unicode) (v : StabilitySettings) (log : List Text) (now : ℕ) (t : StabilityTracker)
    → Heard u v log t
    → t.final ≡ false
    → (t.tokens ≡ tokenize u (newest log))
      × (((assess u now t).stable_token_count ≤ committed_count t)
          ⊎ ((v.window_size ≤ length log)
              × BeginAlike u
                  (assess u now t).stable_token_count
                  (newest log)
                  (last_n v.window_size log)))
assess-BeginAlike u v log now t h f = (
  m.current,
  elim (assess-AgreeOn u now t f) [
    | inl few ↦ inl few
    | inr (full, agree) ↦ inr (enough full, alike full agree)
  ],
)
  where
    m : Remembers u v log t
    m = Heard-Remembers u v log t h

    n : ℕ
    n = (assess u now t).stable_token_count

    window_same : t.settings.window_size ≡ v.window_size
    window_same = ap (λ s. s.window_size) m.same_settings

    kept_length : length t.history ≡ length log - (length log - v.window_size)
    kept_length =
        ap length (m.kept ∙ last_n-words u v.window_size log)
        ∙ length-words u (last_n v.window_size log)
        ∙ length-drop (length log - v.window_size) log

    enough : length t.history ≡ t.settings.window_size → v.window_size ≤ length log
    enough full = omega (arith, full, window_same, kept_length)

    alike :
        length t.history ≡ t.settings.window_size
        → AgreeOn n t.history
        → BeginAlike u n (newest log) (last_n v.window_size log)
    alike full agree =
        subst (λ text. BeginAlike u n text (last_n v.window_size log))
          {x = newest (last_n v.window_size log)} {y = newest log}
          (newest-drop (length log - v.window_size) log
            (omega (arith, enough full, Heard-window u v log t h)))
          (AgreeOn-BeginAlike u n (last_n v.window_size log) (
            subst (AgreeOn n) {x = t.history} {y = map (words u) (last_n v.window_size log)}
              (m.kept ∙ last_n-words u v.window_size log) agree))
