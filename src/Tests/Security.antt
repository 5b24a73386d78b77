-- ===== src/Tests/Security.antt =====
-- The limits and the second factor of src/titanbox/security.py at concrete inputs.
use vpsssssskjwjw.Prelude.{
  ℕ, ◌+◌, ◌-◌, ◌*◌, ◌/◌, ◌≤◌, ◌<◌, ◌≡◌, refl, Bool, true, false, Option, none, some, List, [], ◌∷◌,
  ◌++◌, Text, length, leb, if◌then◌else◌, codes, arith, ◌&&◌,
}
use vpsssssskjwjw.Prelude.Result.{ok}
use vpsssssskjwjw.Security.TokenBucket.{TokenBucket, unit}
use vpsssssskjwjw.Security.TokenBucket.Laws.{run, run_rate}
use vpsssssskjwjw.Security.FailureCircuit.{
  FailureCircuit, is_open, record_failure, record_success, retry_after,
}
use vpsssssskjwjw.Security.FailureCircuit.Laws.{
  count_recent, record_failure_opens, record_success_keeps_open, retry_after_exact,
}
use vpsssssskjwjw.Security.Totp.{TotpLibrary, all_ascii, verify_totp, decode_base32, counter_code}
use vpsssssskjwjw.Security.Totp.Laws.{IsAdmissible, verify_totp_sound}
use vpsssssskjwjw.Security.Totp.Total.{verify_totp_total}

abbrev bucket : TokenBucket
bucket = record { rate_per_minute = 60; capacity = 2 * 60000; tokens = 60000; updated = 1000 }

run_rate_example :
    (run bucket (1500 ∷ 1600 ∷ 9000 ∷ [])).0 * unit
      + (run bucket (1500 ∷ 1600 ∷ 9000 ∷ [])).1.tokens
    ≤ 60000 + ((run bucket (1500 ∷ 1600 ∷ 9000 ∷ [])).1.updated - 1000) * 60
run_rate_example =
    run_rate bucket (1500 ∷ 1600 ∷ 9000 ∷ []) (omega arith, (omega arith, (omega arith, tt)))

abbrev circuit : FailureCircuit
circuit = record {
  threshold = 3;
  window_ms = 1000;
  cooldown_ms = 5000;
  failures = 100 ∷ 900 ∷ 1200 ∷ [];
  open_until = 0;
}

abbrev opened : FailureCircuit
opened = record circuit { open_until = 6500 }

record_failure_opens_example : (is_open (record_failure circuit 1500) 2000).0 ≡ (
    if leb 3 (count_recent 1000 1500 (100 ∷ 900 ∷ 1200 ∷ []) + 1)
    then true
    else (is_open circuit 2000).0)
record_failure_opens_example =
    record_failure_opens circuit 1500 2000 (omega arith, (omega arith, tt)) (omega arith)
      (omega arith)

record_success_keeps_open_example :
    (is_open (record_success opened 2000 2001) 3000).0 ≡ (is_open opened 3000).0
record_success_keeps_open_example = record_success_keeps_open opened 2000 2001 3000 (omega arith)

retry_after_exact_example :
    ((is_open opened (2000 + 5 * 1000)).0 ≡ false)
    × ((is_open opened (2000 + (5 - 1) * 1000)).0 ≡ true)
unfolding retry_after
retry_after_exact_example = retry_after_exact opened 2000 5 refl (omega arith)

-- A library whose HMAC is all zeros, so that the code is the same at every counter.
abbrev zeros : List ℕ
zeros = 0 ∷ 0 ∷ 0 ∷ 0 ∷ 0 ∷ 0 ∷ 0 ∷ 0 ∷ 0 ∷ 0 ∷ 0 ∷ 0 ∷ 0 ∷ 0 ∷ 0 ∷ 0 ∷ 0 ∷ 0 ∷ 0 ∷ 0 ∷ []

abbrev library : TotpLibrary
library = record {
  is_space = λ c. false;
  is_digit = λ c. leb 48 c && leb c 57;
  upper = λ s. s;
  b32decode = λ s. some s;
  hmac_sha1 = λ key message. zeros;
}

verify_totp_sound_example :
    (length (codes "000000") ≡ 6)
    × ((key : Text) × (decode_base32 library (codes "A") ≡ ok key)
        × (counter_code library key 6 100 ≡ ok (codes "000000"))
        × IsAdmissible (3000 / 30) 1 (some 99) 100)
unfolding verify_totp vpsssssskjwjw.Security.Totp.all_digits vpsssssskjwjw.Prelude.ℕ_discrete
    decode_base32 vpsssssskjwjw.Prelude.text_dec vpsssssskjwjw.Security.Totp.scan counter_code
    vpsssssskjwjw.Security.Totp.pack_q vpsssssskjwjw.Security.Totp.truncate
    vpsssssskjwjw.Security.Totp.last_byte vpsssssskjwjw.Security.Totp.unpack_i
    vpsssssskjwjw.Security.Totp.compare_digest all_ascii vpsssssskjwjw.Security.Totp.Digits.zfill
    vpsssssskjwjw.Security.Totp.Digits.decimal
verify_totp_sound_example =
    verify_totp_sound library (codes "A") (codes "000000") 3000 30 1 (some 99) 100 refl

verify_totp_total_example :
    (r : Option ℕ) × (verify_totp library (codes "AAAAAAAA") (codes "123456") 3000 30 1 none ≡ ok r)
unfolding decode_base32 all_ascii vpsssssskjwjw.Prelude.text_dec
verify_totp_total_example =
    verify_totp_total library (λ k m. refl) (codes "AAAAAAAA") (codes "123456") (codes "AAAAAAAA")
      3000 30 1 none refl refl (omega arith)
