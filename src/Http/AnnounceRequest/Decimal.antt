-- ===== src/Http/AnnounceRequest/Decimal.antt =====
-- The decimal digits of a number, and that the parser of announce.rs reads them back.
use torrust_tracker.Prelude.{
  ℕ, zero, suc, ◌+◌, ◌/◌, ◌%◌, ◌^◌, ◌≤◌, ◌<◌, ◌≡◌, inl, inr, refl, Bool, true, false, ◌&&◌, some,
  [], ◌∷◌, arith, if◌then◌else◌, ltb, leb, Text, all_b, Bool-cases,
}
use torrust_tracker.Http.Query.RoundTrip.{is_plain}
use torrust_tracker.Http.AnnounceRequest.{parse_digits, parse_unsigned}

-- The last digits of a number, so many at most, in front of a text.
unfoldable pub put : ℕ → ℕ → Text → Text
put zero n rest = rest
put (suc digits) n rest =
    let more = put digits (n / 10) ((b'0' + n % 10) ∷ rest) in
    if ltb n 10 then (b'0' + n) ∷ rest else more

-- A number below 10^20, as every 64-bit number is, in decimal digits without leading zeros.
unfoldable pub decimal : ℕ → Text
unfolding put
decimal n = put 20 n []

abbrev is_digit : ℕ → Bool
is_digit c = leb b'0' c && leb c b'9'

abbrev starts_with_digit : Text → Bool
starts_with_digit [] = false
starts_with_digit (c ∷ s) = is_digit c

starts_with_digit-put :
    (f n : ℕ) (rest : Text)
    → starts_with_digit rest ≡ true
    → starts_with_digit (put f n rest) ≡ true
unfolding put
starts_with_digit-put zero n rest h = h
starts_with_digit-put (suc f) n rest h =
    ground (arith, starts_with_digit-put f (n / 10) ((b'0' + n % 10) ∷ rest))

starts_with_digit-decimal : (n : ℕ) → starts_with_digit (decimal n) ≡ true
unfolding decimal
starts_with_digit-decimal n =
    ground (arith, starts_with_digit-put 19 (n / 10) ((b'0' + n % 10) ∷ []))

digit_plain : (c : ℕ) → is_digit c ≡ true → is_plain c ≡ true
digit_plain c h = ground arith

put_plain :
    (f n : ℕ) (rest : Text) → all_b is_plain rest ≡ true → all_b is_plain (put f n rest) ≡ true
unfolding put
put_plain zero n rest h = h
put_plain (suc f) n rest h = elim (Bool-cases (ltb n 10)) [
  | inl small ↦ ground (arith, digit_plain (b'0' + n))
  | inr large ↦
      ground (arith, digit_plain (b'0' + n % 10), put_plain f (n / 10) ((b'0' + n % 10) ∷ rest))
]

pub decimal_plain : (n : ℕ) → all_b is_plain (decimal n) ≡ true
unfolding decimal
decimal_plain n = put_plain 20 n [] refl

parse_digits-put :
    (limit f n : ℕ) (rest : Text)
    → n ≤ limit
    → n < 10 ^ f
    → parse_digits limit 0 (put f n rest) ≡ parse_digits limit n rest
unfolding put parse_digits
parse_digits-put limit zero n rest fits small = ground arith
parse_digits-put limit (suc f) n rest fits small =
    ground (arith, parse_digits-put limit f (n / 10) ((b'0' + n % 10) ∷ rest))

parse_unsigned-digits :
    (limit : ℕ) (s : Text)
    → starts_with_digit s ≡ true
    → parse_unsigned limit s ≡ parse_digits limit 0 s
unfolding parse_unsigned
parse_unsigned-digits limit [] h = ground arith
parse_unsigned-digits limit (c ∷ s) h = ground arith

pub parse_unsigned-decimal :
    (limit n : ℕ) → n ≤ limit → n < 10 ^ 20 → parse_unsigned limit (decimal n) ≡ some n
unfolding decimal parse_digits
parse_unsigned-decimal limit n fits small = ground (
  arith,
  parse_unsigned-digits limit (decimal n) (starts_with_digit-decimal n),
  parse_digits-put limit 20 n [] fits small,
)
