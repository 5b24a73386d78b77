-- ===== src/Security/Totp/Laws.antt =====
-- What a verified code stands for.
use vpsssssskjwjw.Prelude.{
  ℕ, zero, suc, ◌+◌, ◌-◌, ◌*◌, ◌/◌, ◌≤◌, ◌<◌, ◌≡◌, ◌≢◌, refl, ap, ℕ_discrete, true, false, Option,
  none, some, Text, text_eq, nat_eq, length, arith, inl, inr,
}
use vpsssssskjwjw.Prelude.Result.{ok, Result-cases}
use vpsssssskjwjw.Security.Totp.{
  TotpLibrary, all_digits, decode_base32, counter_code, compare_digest, scan, verify_totp, is_used,
}

-- A counter that the loop tries and does not skip.
record IsTried (current window : ℕ) (last : Option ℕ) (counter : ℕ) : Type 0 where
  pub low : current ≤ counter + window
  pub high : counter ≤ current + window
  pub fresh : is_used last counter ≡ false

abbrev pub IsLater : Option ℕ → ℕ → Type 0
IsLater none counter = Unit
IsLater (some last) counter = last < counter

-- A counter that may be accepted: within the window of `current`, and later than the last one used.
pub record IsAdmissible (current window : ℕ) (last : Option ℕ) (counter : ℕ) : Type 0 where
  pub low : current ≤ counter + window
  pub high : counter ≤ current + window
  pub fresh : IsLater last counter

is_used-IsLater :
    (last : Option ℕ) (counter : ℕ) → is_used last counter ≡ false → IsLater last counter
is_used-IsLater none counter h = tt
is_used-IsLater (some l) counter h = ground (arith, h)

IsLater-is_used :
    (last : Option ℕ) (counter : ℕ) → IsLater last counter → is_used last counter ≡ false
IsLater-is_used none counter h = refl
IsLater-is_used (some l) counter h = ground (arith, h)

IsTried-IsAdmissible :
    (current window : ℕ) (last : Option ℕ) (counter : ℕ)
    → IsTried current window last counter
    → IsAdmissible current window last counter
IsTried-IsAdmissible current window last counter t = record {
  low = t.low;
  high = t.high;
  fresh = is_used-IsLater last counter t.fresh;
}

module _ (L : TotpLibrary) where
  scan_sound :
      (rounds index : ℕ) (key code : Text) (current window : ℕ) (last : Option ℕ) (c : ℕ)
      → index + rounds ≤ 2 * window + 1
      → scan L rounds index key code current window last ≡ ok (some c)
      → IsTried current window last c × (counter_code L key 6 c ≡ ok code)
  unfolding scan compare_digest
  scan_sound zero index key code current window last c b h = absurd (cc h)
  scan_sound (suc rounds) index key code current window last c b h =
      let ih = scan_sound rounds (suc index) key code current window last c (omega arith) in
      ground (arith, ih)

  -- What the loop tells of the counters from `index` on when it accepts none of them.
  scan_complete :
      (rounds index : ℕ) (key code : Text) (current window : ℕ) (last : Option ℕ) (i : ℕ)
      → scan L rounds index key code current window last ≡ ok none
      → index ≤ i
      → i < index + rounds
      → window ≤ current + i
      → is_used last (current + i - window) ≡ false
      → counter_code L key 6 (current + i - window) ≢ ok code
  unfolding scan compare_digest
  scan_complete zero index key code current window last i h p q r u = absurd (omega arith)
  scan_complete (suc rounds) index key code current window last i h p q r u =
      elim (ℕ_discrete i index) [
        | yes e ↦ λ f. ground (arith, e, f, ap (λ (t : ℕ). current + t - window) e)
        | no ne ↦ ground (arith, scan_complete rounds (suc index) key code current window last i)
      ]

  -- A code that is accepted is six digits long and is the code of the counter returned, which lies
  -- within `window` steps of the present one and is later than the last counter used.
  pub verify_totp_sound :
      (secret code : Text) (unix_time step window : ℕ) (last : Option ℕ) (c : ℕ)
      → verify_totp L secret code unix_time step window last ≡ ok (some c)
      → (length code ≡ 6)
        × ((key : Text) × (decode_base32 L secret ≡ ok key)
            × (counter_code L key 6 c ≡ ok code)
            × IsAdmissible (unix_time / step) window last c)
  unfolding verify_totp
  verify_totp_sound secret code unix_time step window last c h =
      elim (Result-cases (decode_base32 L secret)) [
        | inl (key, e) ↦
            let s =
              scan_sound (2 * window + 1) 0 key code (unix_time / step) window last c (omega arith)
                (ground arith) in
            (ground arith, (key, e, s.1, IsTried-IsAdmissible (unix_time / step) window last c s.0))
        | inr (f, e) ↦ (ground arith, absurd (ground arith))
      ]

  -- A well-formed code is refused only if it is the code of no admissible counter.
  pub verify_totp_complete :
      (secret code key : Text) (unix_time step window : ℕ) (last : Option ℕ) (c : ℕ)
      → verify_totp L secret code unix_time step window last ≡ ok none
      → length code ≡ 6
      → all_digits L.is_digit code ≡ true
      → decode_base32 L secret ≡ ok key
      → IsAdmissible (unix_time / step) window last c
      → counter_code L key 6 c ≢ ok code
  unfolding verify_totp
  verify_totp_complete secret code key unix_time step window last c h six digits e adm =
      let i = c + window - unix_time / step in
      let back : unix_time / step + i - window ≡ c = omega (arith, adm.low) in
      rw back at (
        scan_complete (2 * window + 1) 0 key code (unix_time / step) window last i (ground arith)
          (omega arith) (omega (arith, adm.high)) (omega (arith, adm.low))
          (rw back (IsLater-is_used last c adm.fresh)))
