-- ===== src/Stability.antt =====
-- app/streaming/stability.py: which prefix of a recogniser's hypotheses is stable. Weights,
-- confidences and the threshold are parts of `one`, ratios are exact, and all times are in one unit;
-- values that are not finite or not numbers are none. Without a sequence so far, `sequence` is none.
pub mod Protection
pub mod Agreement
pub mod Heard
mod Samples
use my_vote_server.Base.{
  ℕ, zero, suc, ◌+◌, ◌-◌, ◌*◌, min, max, Bool, true, false, not, ◌&&◌, ◌||◌, Option, none, some,
  List, [], ◌∷◌, ◌++◌, map, ltb, leb, ◌==◌, if◌then◌else◌, is_some, length, take, drop, any, count,
  Text, starts_with, values,
}
use my_vote_server.Source.Text.{Unicode, TextToken, tokenize, token_char_end, common_prefix_length}
use my_vote_server.Policy.{one}

-- The arguments of `__init__` but the clock.
pub record StabilitySettings : Type 0 where
  pub window_size : ℕ
  pub threshold : ℕ
  pub age_horizon : ℕ
  pub pause_threshold : ℕ
  pub max_source_chars : ℕ
  pub hold_last_token : Bool
  pub agreement_weight : ℕ
  pub confidence_weight : ℕ
  pub age_weight : ℕ
  pub pause_weight : ℕ

pub record Ratio : Type 0 where
  pub num : ℕ
  pub den : ℕ

pub record StabilityResult : Type 0 where
  pub text : Text
  pub sequence : Option ℕ
  pub stable_token_count : ℕ
  pub stable_char_end : Option ℕ
  pub score : Ratio
  pub confidence : Option Ratio
  pub age : ℕ
  pub prefix_conflict : Bool
  pub reconcile_required : Bool
  pub is_final : Bool

-- `history` is the deque from its oldest entry on.
pub record StabilityTracker : Type 0 where
  pub settings : StabilitySettings
  pub history : List (List Text)
  pub tokens : List TextToken
  pub seen : List ℕ
  pub text : Text
  pub sequence : Option ℕ
  pub final : Bool
  pub confidences : List (Option ℕ)
  pub pause : Option ℕ
  pub committed_text : Text
  pub last_time : Option ℕ
  pub result : Option StabilityResult

-- `reset`.
unfoldable pub reset : StabilitySettings → StabilityTracker
reset settings = record {
  settings = settings;
  history = [];
  tokens = [];
  seen = [];
  text = [];
  sequence = none;
  final = false;
  confidences = [];
  pause = none;
  committed_text = [];
  last_time = none;
  result = none;
}

unfoldable pub check_settings : StabilitySettings → Bool
check_settings v =
    leb 2 v.window_size
    && leb v.window_size 32
    && leb v.threshold one
    && ltb 0 v.age_horizon
    && ltb 0 v.pause_threshold
    && leb 1 v.max_source_chars
    && ltb 0 (v.agreement_weight + v.confidence_weight + v.age_weight + v.pause_weight)

-- `__init__`; none is its ValueError.
unfoldable pub make : StabilitySettings → Option StabilityTracker
unfolding check_settings reset
make settings = if check_settings settings then some (reset settings) else none

-- `_now`: the clock never runs backwards.
unfoldable pub now_of : ℕ → Option ℕ → ℕ
now_of clock none = clock
now_of clock (some last) = max clock last

unfoldable pub probability : ℕ → Option ℕ
probability v = if leb v one then some v else none

-- The argument confidences: none at all, one for all tokens, or one for each.
pub data Confidences : Type 0 where
  absent : Confidences
  shared : ℕ → Confidences
  each : List (Option ℕ) → Confidences

unfoldable pub replicate {ℓ} : {A : Type ℓ} → ℕ → A → List A
replicate zero x = []
replicate (suc n) x = x ∷ replicate n x

unfoldable pub probability_of : Option ℕ → Option ℕ
unfolding probability
probability_of none = none
probability_of (some v) = probability v

unfoldable pub confidences_of : ℕ → Confidences → List (Option ℕ)
unfolding replicate probability probability_of
confidences_of n absent = replicate n none
confidences_of n (shared v) = replicate n (probability v)
confidences_of n (each vs) = if length vs == n then map probability_of vs else replicate n none

-- `deque(maxlen=window_size)`.append.
unfoldable pub remember : ℕ → List Text → List (List Text) → List (List Text)
remember size values history =
    let longer = history ++ values ∷ [] in drop (length longer - size) longer

unfoldable pub has_conflict : StabilityTracker → Bool
has_conflict t =
    not (starts_with t.text t.committed_text)
    || ltb 0 (length t.committed_text)
      && not (any (λ k. k.stop == length t.committed_text) t.tokens)

unfoldable pub agreement : StabilityTracker → ℕ
unfolding common_prefix_length
agreement t =
    if length t.history == t.settings.window_size then common_prefix_length t.history else 0

-- Whether the last token ends the text and may still grow.
unfoldable pub may_grow : Unicode → Text → List TextToken → Bool
may_grow u text [] = false
may_grow u text (k ∷ []) = k.stop == length text && any u.is_alnum k.text
may_grow u text (k ∷ (j ∷ ks)) = may_grow u text (j ∷ ks)

unfoldable pub available : Unicode → StabilityTracker → ℕ
unfolding agreement may_grow
available u t =
    let n = if t.final then length t.tokens else agreement t in
    if t.settings.hold_last_token
      && not t.final
      && n == length t.tokens
      && may_grow u t.text t.tokens
    then n - 1
    else n

-- The score of a token, over the common denominator of its terms.
unfoldable pub score_of : StabilityTracker → ℕ → ℕ → Option ℕ → Ratio
score_of t now seen confidence =
    let v = t.settings in
    let d = v.age_horizon * one * v.pause_threshold in
    let aged = v.age_weight * min v.age_horizon (now - seen) * one * v.pause_threshold in
    let known : ℕ = elim confidence [ none ↦ 0 | some c ↦ v.confidence_weight ] in
    let trusted : ℕ = elim confidence [
      | none ↦ 0
      | some c ↦ v.confidence_weight * c * v.age_horizon * v.pause_threshold
    ] in
    let rested : ℕ = elim t.pause [ none ↦ 0 | some p ↦ v.pause_weight ] in
    let paused : ℕ = elim t.pause [
      | none ↦ 0
      | some p ↦ v.pause_weight * min v.pause_threshold p * one * v.age_horizon
    ] in
    let weight = v.agreement_weight + v.age_weight + known + rested in
    if t.final
    then record { num = 1; den = 1 }
    else if weight == 0
    then record { num = 0; den = 1 }
    else record { num = v.agreement_weight * d + aged + trusted + paused; den = weight * d }

unfoldable pub scores : StabilityTracker → ℕ → ℕ → List ℕ → List (Option ℕ) → List Ratio
unfolding score_of
scores t now zero seen confidences = []
scores t now (suc n) [] confidences = []
scores t now (suc n) (s ∷ seen) [] = []
scores t now (suc n) (s ∷ seen) (c ∷ confidences) =
    score_of t now s c ∷ scores t now n seen confidences

-- `score + 1e-12 >= self.threshold`.
unfoldable pub passes : ℕ → Ratio → Bool
passes threshold r = leb (threshold * r.den) (r.num * one + r.den)

-- The scores in front of the first one that does not pass.
unfoldable pub stable_run : ℕ → List Ratio → ℕ
unfolding passes
stable_run threshold [] = 0
stable_run threshold (r ∷ rs) =
    let rest = stable_run threshold rs in if passes threshold r then suc rest else 0

unfoldable pub committed_count : StabilityTracker → ℕ
committed_count t = count (λ k. leb k.stop (length t.committed_text)) t.tokens

unfoldable pub stable_count : ℕ → StabilityTracker → ℕ
unfolding has_conflict committed_count
stable_count run t =
    if has_conflict t then (if t.final then run else 0) else max run (committed_count t)

unfoldable pub least : Ratio → List Ratio → Ratio
least r [] = r
least r (x ∷ xs) =
    let smaller = least x xs in
    let same = least r xs in if ltb (x.num * r.den) (r.num * x.den) then smaller else same

unfoldable pub least_of : List Ratio → List Ratio → Ratio
unfolding least
least_of (r ∷ rs) all_scores = least r rs
least_of [] (r ∷ rs) = least r rs
least_of [] [] = record { num = 0; den = 1 }

unfoldable pub known_of : List (Option ℕ) → List ℕ
known_of [] = []
known_of (none ∷ cs) = known_of cs
known_of (some c ∷ cs) = c ∷ known_of cs

unfoldable pub sum_of : List ℕ → ℕ
sum_of [] = 0
sum_of (n ∷ ns) = n + sum_of ns

unfoldable pub mean : List ℕ → Option Ratio
unfolding sum_of
mean [] = none
mean (n ∷ ns) = some (record { num = sum_of (n ∷ ns); den = length (n ∷ ns) * one })

unfoldable pub age_of : ℕ → List ℕ → ℕ
age_of now [] = 0
age_of now (s ∷ seen) = now - s

unfoldable pub assess : Unicode → ℕ → StabilityTracker → StabilityResult
unfolding available scores stable_run stable_count has_conflict least_of known_of mean age_of
assess u now t =
    let n = available u t in
    let found = scores t now n t.seen t.confidences in
    let stable = stable_count (stable_run t.settings.threshold found) t in
    record {
      text = t.text;
      sequence = t.sequence;
      stable_token_count = stable;
      stable_char_end = token_char_end t.tokens stable;
      score = least_of (take stable found) found;
      confidence = mean (known_of (take n t.confidences));
      age = age_of now t.seen;
      prefix_conflict = has_conflict t;
      reconcile_required = has_conflict t && t.final;
      is_final = t.final;
    }

-- `_evaluate`.
unfoldable pub evaluate : Unicode → ℕ → StabilityTracker → StabilityTracker
unfolding assess
evaluate u now t = record t { last_time = some now; result = some (assess u now t) }

unfoldable pub is_late : ℕ → Option ℕ → Bool
is_late sequence none = false
is_late sequence (some last) = leb sequence last

unfoldable pub hear :
    Unicode → Text → ℕ → Bool → Confidences → Option ℕ → ℕ → StabilityTracker → StabilityTracker
unfolding tokenize common_prefix_length replicate remember confidences_of
hear u text sequence is_final confidences pause now t =
    let tokens = tokenize u text in
    let values = map (λ k. k.text) tokens in
    let retained = common_prefix_length (map (λ k. k.text) t.tokens ∷ values ∷ []) in
    record t {
      seen = take retained t.seen ++ replicate (length tokens - retained) now;
      history = remember t.settings.window_size values t.history;
      tokens = tokens;
      text = text;
      sequence = some sequence;
      final = is_final;
      confidences = confidences_of (length tokens) confidences;
      pause = pause;
    }

-- `observe`; none is its ValueError.
unfoldable pub observe :
    Unicode
    → Text
    → ℕ
    → Bool
    → Confidences
    → Option ℕ
    → ℕ
    → StabilityTracker
    → Option StabilityTracker
unfolding is_late now_of hear evaluate
observe u text sequence is_final confidences pause clock t =
    let now = now_of clock t.last_time in
    if ltb t.settings.max_source_chars (length text) || is_late sequence t.sequence
    then none
    else some (evaluate u now (hear u text sequence is_final confidences pause now t))

-- `refresh`.
unfoldable pub refresh : Unicode → ℕ → StabilityTracker → StabilityTracker
unfolding now_of evaluate
refresh u clock t = if is_some t.sequence then evaluate u (now_of clock t.last_time) t else t

unfoldable pub exceeds : ℕ → Option ℕ → Bool
exceeds char_end none = true
exceeds char_end (some stop) = ltb stop char_end

unfoldable pub refuses_commit : ℕ → Bool → StabilityTracker → Option StabilityResult → Bool
unfolding exceeds
refuses_commit char_end allow_final_reconcile t none = true
refuses_commit char_end allow_final_reconcile t (some r) =
    not (char_end == 0 || any (λ k. k.stop == char_end) t.tokens)
    || exceeds char_end r.stable_char_end
    || (r.prefix_conflict || ltb char_end (length t.committed_text))
      && not (allow_final_reconcile && t.final)

-- `commit`; none is its ValueError.
unfoldable pub commit : Unicode → ℕ → Bool → ℕ → StabilityTracker → Option StabilityTracker
unfolding refuses_commit now_of evaluate
commit u char_end allow_final_reconcile clock t =
    if refuses_commit char_end allow_final_reconcile t t.result
    then none
    else some
        (evaluate u (now_of clock t.last_time) (record t { committed_text = take char_end t.text }))
