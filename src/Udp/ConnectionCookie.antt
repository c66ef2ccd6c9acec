-- ===== src/Udp/ConnectionCookie.antt =====
-- src/servers/udp/connection_cookie.rs: the connection id of a UDP client is the time of its issue,
-- added to a fingerprint of the client and encrypted. A float is its bit pattern, the number below
-- 2^64 of its 8 bytes; a cookie and a cipher block are the numbers of theirs. The cipher is a crate,
-- and an interface here.
pub mod Laws
use torrust_tracker.Prelude.{
  ℕ, ◌+◌, ◌-◌, ◌*◌, ◌/◌, ◌%◌, ◌^◌, ◌<◌, Bool, true, false, not, ◌&&◌, ◌||◌, ◌≡◌, if◌then◌else◌, ltb,
  ◌==◌, Result, ok, err,
}

-- `f64`, by its bits: 1 for the sign, 11 for the exponent, 52 for the fraction.
abbrev pub F64 : Type 0
F64 = ℕ

abbrev pub is_negative : F64 → Bool
is_negative f = not (ltb f (2 ^ 63))

abbrev pub magnitude : F64 → ℕ
magnitude f = f % 2 ^ 63

abbrev pub exponent : F64 → ℕ
exponent f = magnitude f / 2 ^ 52

-- `f64::is_normal`: neither zero, subnormal, infinite nor NaN.
abbrev pub is_normal : F64 → Bool
is_normal f = not (exponent f == 0) && not (exponent f == 2047)

abbrev pub is_nan : F64 → Bool
is_nan f = ltb (2047 * 2 ^ 52) (magnitude f)

-- The order of the signed magnitudes.
abbrev pub below : Bool → Bool → ℕ → ℕ → Bool
below true true a b = ltb b a
below true false a b = not (a == 0 && b == 0)
below false true a b = false
below false false a b = ltb a b

-- `a < b` on `f64`: false if either is a NaN, and the two zeros are equal.
unfoldable pub lt_f64 : F64 → F64 → Bool
lt_f64 a b =
    not (is_nan a || is_nan b) && below (is_negative a) (is_negative b) (magnitude a) (magnitude b)

-- A block cipher under the key of the server: decryption undoes encryption.
pub record Cipher : Type 0 where
  pub encrypt_block : ℕ → ℕ
  pub decrypt_block : ℕ → ℕ
  pub decrypt-encrypt : (block : ℕ) → block < 2 ^ 64 → decrypt_block (encrypt_block block) ≡ block

pub data Error : Type 0 where
  cookie_value_not_normal : F64 → Error
  cookie_value_expired : F64 → F64 → Error
  cookie_value_from_future : F64 → F64 → Error

-- `i64::wrapping_add` on the bit patterns.
unfoldable pub assemble : ℕ → F64 → ℕ
assemble fingerprint issue_at = (issue_at + fingerprint) % 2 ^ 64

-- `i64::wrapping_sub` on the bit patterns.
unfoldable pub disassemble : ℕ → ℕ → F64
disassemble fingerprint cookie = (cookie + 2 ^ 64 - fingerprint) % 2 ^ 64

pub data Checked : Type 0 where
  returned : Result Error F64 → Checked
  panicked : Checked

-- The tests on the time of issue.
unfoldable pub check_time : F64 → F64 → F64 → Result Error F64
check_time issue_time start end =
    if not (is_normal issue_time)
    then err (cookie_value_not_normal issue_time)
    else if lt_f64 issue_time start
    then err (cookie_value_expired issue_time start)
    else if lt_f64 end issue_time
    then err (cookie_value_from_future issue_time end)
    else ok issue_time

-- `start <= end`, which the assertion asks for: false if either is a NaN.
abbrev pub ordered : F64 → F64 → Bool
ordered start end = not (is_nan start || is_nan end) && not (lt_f64 end start)

module _ (C : Cipher) where
  unfoldable pub make : ℕ → F64 → Result Error ℕ
  make fingerprint issue_at =
      if not (is_normal issue_at)
      then err (cookie_value_not_normal issue_at)
      else ok (C.encrypt_block (assemble fingerprint issue_at))

  unfoldable pub check : ℕ → ℕ → F64 → F64 → Checked
  unfolding check_time
  check cookie fingerprint start end =
      if not (ordered start end)
      then panicked
      else returned (check_time (disassemble fingerprint (C.decrypt_block cookie)) start end)
