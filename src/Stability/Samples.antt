-- ===== src/Stability/Samples.antt =====
-- The theorems about app/streaming/stability.py at small inputs.
use my_vote_server.Base.{
  ℕ, ◌≤◌, ◌≡◌, refl, ◌⊎◌, true, false, none, some, [], ◌∷◌, leb, ◌==◌, take, starts_with,
}
use my_vote_server.Source.Text.{
  Unicode, between, cjk, extends_cluster, cluster_tail, is_word, joins_word, still_number,
  word_tail, token_length, tokens_from, tokenize, token_char_end, agree_at, prefix_loop, shortest,
  common_prefix_length,
}
use my_vote_server.Stability.{
  StabilitySettings, StabilityTracker, reset, check_settings, make, now_of, absent, replicate,
  confidences_of, remember, has_conflict, agreement, may_grow, available, score_of, scores, passes,
  stable_run, committed_count, stable_count, assess, evaluate, is_late, hear, observe, exceeds,
  refuses_commit, commit,
}
use my_vote_server.Stability.Protection.{
  observes, commits, Reach, here, next, committed_text-protected,
}
use my_vote_server.Stability.Heard.Alike.{BeginAlike, assess-BeginAlike}
use my_vote_server.Stability.Heard.{newest, Heard, from_make, then_observes}

abbrev plain : Unicode
plain = record {
  is_space = λ c. c == b' ';
  is_alnum = λ c. leb b'a' c;
  is_decimal = λ c. false;
  is_alpha = λ c. leb b'a' c;
  is_mark = λ c. false;
}

abbrev settings : StabilitySettings
settings = record {
  window_size = 2;
  threshold = 750000000000;
  age_horizon = 1200;
  pause_threshold = 500;
  max_source_chars = 100;
  hold_last_token = false;
  agreement_weight = 1000000000000;
  confidence_weight = 0;
  age_weight = 0;
  pause_weight = 0;
}

made : make settings ≡ some (reset settings)
unfolding make check_settings
made = refl

abbrev heard : ℕ → StabilityTracker → StabilityTracker
heard k t =
    evaluate plain (now_of k t.last_time)
      (hear plain (b'a' ∷ b' ' ∷ b'b' ∷ []) k false absent none (now_of k t.last_time) t)

abbrev first : StabilityTracker
first = heard 1 (reset settings)

abbrev second : StabilityTracker
second = heard 2 first

-- The second time that "a b" is heard, both tokens are stable, so the first one may be committed.
abbrev committed : StabilityTracker
committed =
    evaluate plain (now_of 3 second.last_time)
      (record second { committed_text = take 1 second.text })

heard_twice : Reach plain (reset settings) second
unfolding observe reset is_late evaluate hear
heard_twice =
    next (next here (observes (b'a' ∷ b' ' ∷ b'b' ∷ []) 1 false absent none 1 first refl))
      (observes (b'a' ∷ b' ' ∷ b'b' ∷ []) 2 false absent none 2 second refl)

then_committed : Reach plain second committed
unfolding commit refuses_commit exceeds evaluate assess hear reset now_of tokenize tokens_from
    token_length word_tail cluster_tail extends_cluster joins_word still_number is_word cjk between
    token_char_end common_prefix_length prefix_loop shortest agree_at stable_count stable_run passes
    scores score_of available may_grow agreement has_conflict committed_count remember replicate
    confidences_of
then_committed = next here (commits 1 false 3 committed refl refl)

committed_text-protected_example : starts_with committed.committed_text second.committed_text ≡ true
committed_text-protected_example =
    committed_text-protected plain settings (reset settings) second committed made heard_twice
      then_committed

both_told :
    Heard plain settings ((b'a' ∷ b' ' ∷ b'b' ∷ []) ∷ ((b'a' ∷ b' ' ∷ b'b' ∷ []) ∷ [])) second
unfolding observe reset is_late evaluate hear
both_told =
    then_observes ((b'a' ∷ b' ' ∷ b'b' ∷ []) ∷ []) first second (b'a' ∷ b' ' ∷ b'b' ∷ []) 2 false
      absent none 2
      (then_observes [] (reset settings) first (b'a' ∷ b' ' ∷ b'b' ∷ []) 1 false absent none 1
        (from_make (reset settings) made) refl)
      refl

assess-BeginAlike_example :
    (second.tokens ≡ tokenize plain (b'a' ∷ b' ' ∷ b'b' ∷ []))
    × (((assess plain 2 second).stable_token_count ≤ committed_count second)
        ⊎ ((2 ≤ 2)
            × BeginAlike plain
                (assess plain 2 second).stable_token_count
                (b'a' ∷ b' ' ∷ b'b' ∷ [])
                ((b'a' ∷ b' ' ∷ b'b' ∷ []) ∷ ((b'a' ∷ b' ' ∷ b'b' ∷ []) ∷ []))))
unfolding evaluate hear reset newest
assess-BeginAlike_example =
    assess-BeginAlike plain settings ((b'a' ∷ b' ' ∷ b'b' ∷ []) ∷ ((b'a' ∷ b' ' ∷ b'b' ∷ []) ∷ []))
      2 second both_told refl
