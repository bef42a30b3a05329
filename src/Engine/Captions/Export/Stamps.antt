-- ===== src/Engine/Captions/Export/Stamps.antt =====
-- The timestamps of subtitle files: `_timestamp` of
-- MyVote-Speaker-Update/src/myvote_engine/captions.py.
use my_vote_server.Base.{
  ℕ, zero, suc, ◌+◌, ◌-◌, ◌*◌, ◌/◌, ◌%◌, ◌≤◌, ◌<◌, ◌≡◌, refl, ap, subst, ◌∙◌, Bool, true, false,
  ◌&&◌, [], ◌∷◌, ◌++◌, arith, ltb, leb, ◌==◌, if◌then◌else◌, if_ind, Text,
}
use my_vote_server.Engine.Captions.Export.{digit, digits_from, two_digits, three_digits, timestamp}

unfoldable pub is_digit : ℕ → Bool
is_digit c = leb b'0' c && leb c b'9'

-- The decimal number at the head of a text, after digits that were read already, and what follows
-- behind one more character.
unfoldable read_number : ℕ → Text → ℕ × Text
unfolding is_digit
read_number n [] = (n, [])
read_number n (c ∷ text) =
    let rest = read_number (10 * n + (c - b'0')) text in if is_digit c then rest else (n, text)

-- The milliseconds that hours, minutes, seconds and thousandths say, read one after the other.
unfoldable read_seconds : ℕ → ℕ × Text → ℕ
unfolding read_number
read_seconds before (seconds, text) = (before + seconds) * 1000 + (read_number 0 text).0

unfoldable read_minutes : ℕ → ℕ × Text → ℕ
unfolding read_number read_seconds
read_minutes before (minutes, text) = read_seconds ((before + minutes) * 60) (read_number 0 text)

unfoldable read_hours : ℕ × Text → ℕ
unfolding read_number read_minutes
read_hours (hours, text) = read_minutes (hours * 60) (read_number 0 text)

pub read_timestamp : Text → ℕ
unfolding read_number read_hours
read_timestamp text = read_hours (read_number 0 text)

read_number-digit :
    (n k : ℕ) (text : Text) → read_number n (digit k ∷ text) ≡ read_number (10 * n + k % 10) text
unfolding read_number is_digit
read_number-digit n k text =
    subst
      (λ b.
        (if b then read_number (10 * n + (digit k - b'0')) text else (n, text))
        ≡ read_number (10 * n + k % 10) text)
      {x = true} {y = is_digit (digit k)} (ground arith)
      (ap (λ m. read_number (10 * n + m) text) (omega arith))

read_number-digits_from :
    (fuel n : ℕ) (text : Text)
    → n ≤ fuel
    → read_number 0 (digits_from fuel n text) ≡ read_number n text
unfolding digits_from
read_number-digits_from zero n text h = ap (λ k. read_number k text) (omega (arith, h))
read_number-digits_from (suc fuel) n text h =
    let rest = read_number-digits_from fuel (n / 10) (digit n ∷ text) in
    if_ind (λ (t : Text). read_number 0 t ≡ read_number n text) (n == 0) _ _
      (λ e. ap (λ k. read_number k text) (ground (arith, e)))
      (λ e.
        rest (ground (arith, e, h))
        ∙ read_number-digit (n / 10) n text
        ∙ ap (λ k. read_number k text) (omega arith))

read_number_end : (n : ℕ) → read_number n [] ≡ (n, [])
unfolding read_number
read_number_end n = refl

digits_from-append :
    (fuel n : ℕ) (xs text : Text) → digits_from fuel n xs ++ text ≡ digits_from fuel n (xs ++ text)
unfolding digits_from
digits_from-append zero n xs text = refl
digits_from-append (suc fuel) n xs text =
    ground (arith, digits_from-append fuel (n / 10) (digit n ∷ xs) text)

read_number-two_digits :
    (n : ℕ) (text : Text) → read_number 0 (two_digits n ++ text) ≡ read_number n text
unfolding two_digits
read_number-two_digits n text =
    if_ind (λ (t : Text). read_number 0 (t ++ text) ≡ read_number n text) (ltb n 100) _ _
      (λ e.
        read_number-digit 0 (n / 10) (digit n ∷ text)
        ∙ read_number-digit (10 * 0 + n / 10 % 10) n text
        ∙ ap (λ k. read_number k text) (ground (arith, e)))
      (λ e.
        ap (read_number 0) (digits_from-append n n [] text)
        ∙ read_number-digits_from n n text (omega arith))

read_number-three_digits : (n : ℕ) → n < 1000 → read_number 0 (three_digits n) ≡ (n, [])
unfolding three_digits
read_number-three_digits n h =
    read_number-digit 0 (n / 100) (digit (n / 10) ∷ digit n ∷ [])
    ∙ read_number-digit (10 * 0 + n / 100 % 10) (n / 10) (digit n ∷ [])
    ∙ read_number-digit (10 * (10 * 0 + n / 100 % 10) + n / 10 % 10) n []
    ∙ read_number_end (10 * (10 * (10 * 0 + n / 100 % 10) + n / 10 % 10) + n % 10)
    ∙ ap (λ k. (k, [])) (omega (arith, h))

-- A number of two digits or more in front of another character.
read_number-field :
    (n c : ℕ) (text : Text)
    → is_digit c ≡ false
    → read_number 0 (two_digits n ++ c ∷ text) ≡ (n, text)
unfolding read_number
read_number-field n c text d = read_number-two_digits n (c ∷ text) ∙ ground (arith, d)

-- A timestamp reads as the milliseconds that it was made of, however many hours they are, when the
-- decimal mark is no digit.
pub read_timestamp-timestamp :
    (milliseconds decimal : ℕ)
    → is_digit decimal ≡ false
    → read_timestamp (timestamp milliseconds decimal) ≡ milliseconds
unfolding read_timestamp timestamp read_hours read_minutes read_seconds
read_timestamp-timestamp milliseconds decimal d =
    let seconds = milliseconds / 1000 in
    let minutes = seconds / 60 in
    let hours = minutes / 60 in
    let millis = three_digits (milliseconds % 1000) in
    let tail = two_digits (seconds % 60) ++ decimal ∷ millis in
    ap read_hours (read_number-field hours b':' (two_digits (minutes % 60) ++ b':' ∷ tail) refl)
    ∙ ap (read_minutes (hours * 60)) (read_number-field (minutes % 60) b':' tail refl)
    ∙ ap (read_seconds ((hours * 60 + minutes % 60) * 60))
        (read_number-field (seconds % 60) decimal millis d)
    ∙ ap (λ (r : ℕ × Text). ((hours * 60 + minutes % 60) * 60 + seconds % 60) * 1000 + r.0)
        (read_number-three_digits (milliseconds % 1000) (omega arith))
    ∙ omega arith
