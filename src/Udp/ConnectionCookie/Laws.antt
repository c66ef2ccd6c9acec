-- ===== src/Udp/ConnectionCookie/Laws.antt =====
-- A cookie is accepted from the client that it was made for, while it is in time.
use torrust_tracker.Prelude.{ℕ, ◌^◌, ◌<◌, true, false, ◌≡◌, ◌≢◌, arith, if◌then◌else◌, ok, err}
use torrust_tracker.Udp.ConnectionCookie.{
  F64, is_normal, lt_f64, Cipher, assemble, disassemble, make, check, ordered, returned,
  cookie_value_expired, cookie_value_from_future,
}

disassemble-assemble :
    (fingerprint issue_at : ℕ)
    → fingerprint < 2 ^ 64
    → issue_at < 2 ^ 64
    → disassemble fingerprint (assemble fingerprint issue_at) ≡ issue_at
unfolding disassemble assemble
disassemble-assemble fingerprint issue_at h k = omega arith

-- A time that another fingerprint reads is the time of issue shifted by the difference of the
-- fingerprints, so it is the time of issue only for the same fingerprint.
disassemble-assemble_ne :
    (fingerprint other issue_at : ℕ)
    → fingerprint < 2 ^ 64
    → other < 2 ^ 64
    → issue_at < 2 ^ 64
    → other ≢ fingerprint
    → disassemble other (assemble fingerprint issue_at) ≢ issue_at
unfolding disassemble assemble
disassemble-assemble_ne fingerprint other issue_at h k l n = omega arith

assemble_bound : (fingerprint issue_at : ℕ) → assemble fingerprint issue_at < 2 ^ 64
unfolding assemble
assemble_bound fingerprint issue_at = omega arith

module _ (C : Cipher) (fingerprint : ℕ) (issue_at : F64) (word : fingerprint < 2 ^ 64)
    (bits : issue_at < 2 ^ 64) where
  decrypted :
      C.decrypt_block (C.encrypt_block (assemble fingerprint issue_at))
      ≡ assemble fingerprint issue_at
  decrypted =
      C.decrypt-encrypt (assemble fingerprint issue_at) (assemble_bound fingerprint issue_at)

  -- Whoever checks a cookie with the fingerprint that it was made with, and a range in order, sees the
  -- time of its issue: it is accepted, too old or from the future as that time is.
  pub check-make :
      (cookie : ℕ) (start end : F64)
      → make C fingerprint issue_at ≡ ok cookie
      → ordered start end ≡ true
      → check C cookie fingerprint start end
        ≡ returned (
            if lt_f64 issue_at start
            then err (cookie_value_expired issue_at start)
            else if lt_f64 end issue_at
            then err (cookie_value_from_future issue_at end)
            else ok issue_at)
  unfolding make check
  check-make cookie start end made inside =
      ground (arith, decrypted, disassemble-assemble fingerprint issue_at word bits)

  -- Checked with another fingerprint a cookie never shows the time of its issue.
  pub check-make_ne :
      (cookie other : ℕ) (start end : F64)
      → make C fingerprint issue_at ≡ ok cookie
      → other < 2 ^ 64
      → other ≢ fingerprint
      → check C cookie other start end ≢ returned (ok issue_at)
  unfolding make check
  check-make_ne cookie other start end made word' ne same =
      ground
        (arith, decrypted, disassemble-assemble_ne fingerprint other issue_at word word' bits ne)

-- A cookie that is accepted, whoever made it, shows a normal time within the range.
pub check_ok :
    (C : Cipher) (cookie fingerprint : ℕ) (start end t : F64)
    → check C cookie fingerprint start end ≡ returned (ok t)
    → (is_normal t ≡ true) × (lt_f64 t start ≡ false) × (lt_f64 end t ≡ false)
unfolding check
check_ok C cookie fingerprint start end t h = ground arith
