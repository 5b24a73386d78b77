-- ===== src/Security/Totp/Total.antt =====
-- With a digest of twenty bytes a code is always made, and verification never raises on ASCII digits.
use vpsssssskjwjw.Prelude.{
  ℕ, zero, suc, ◌+◌, ◌-◌, ◌*◌, ◌/◌, ◌%◌, ◌^◌, ◌≤◌, ◌<◌, ◌≡◌, ◌≢◌, refl, true, Option, [], ◌∷◌, ◌++◌,
  Text, text_eq, nat_eq, ltb, length, take, drop, arith, Bool-cases, inl, inr,
}
use vpsssssskjwjw.Prelude.Result.{ok, err, Result-cases}
use vpsssssskjwjw.Security.Totp.{
  Fault, TotpLibrary, all_ascii, decode_base32, counter_code, compare_digest, scan, verify_totp,
  last_byte, unpack_i, pack_q, truncate,
}
use vpsssssskjwjw.Security.Totp.Digits.{decimal, decimal_loop, zfill, zeros, length-zfill-decimal}

last_byte_total : (s : Text) → 0 < length s → (c : ℕ) × (last_byte s ≡ ok c)
unfolding last_byte
last_byte_total [] h = absurd (omega arith)
last_byte_total (c ∷ []) h = (c, refl)
last_byte_total (c ∷ d ∷ s) h = last_byte_total (d ∷ s) (omega arith)

unpack_i_total : (s : Text) → length s ≡ 4 → (n : ℕ) × (unpack_i s ≡ ok n)
unfolding unpack_i
unpack_i_total (a ∷ b ∷ c ∷ d ∷ []) h = (_, refl)
unpack_i_total [] h = absurd (omega arith)
unpack_i_total (a ∷ []) h = absurd (omega arith)
unpack_i_total (a ∷ b ∷ []) h = absurd (omega arith)
unpack_i_total (a ∷ b ∷ c ∷ []) h = absurd (omega arith)
unpack_i_total (a ∷ b ∷ c ∷ d ∷ e ∷ s) h = absurd (omega arith)

length-take-drop : (n o : ℕ) (s : Text) → o + n ≤ length s → length (take n (drop o s)) ≡ n
length-take-drop zero o s h = refl
length-take-drop (suc n) zero [] h = absurd (omega arith)
length-take-drop (suc n) zero (x ∷ s) h = omega (arith, length-take-drop n zero s (omega arith))
length-take-drop (suc n) (suc o) [] h = absurd (omega arith)
length-take-drop (suc n) (suc o) (x ∷ s) h = length-take-drop (suc n) o s (omega arith)

abbrev packed : ℕ → Text
packed n =
    n / 2 ^ 56 % 256
    ∷ n / 2 ^ 48 % 256
    ∷ n / 2 ^ 40 % 256
    ∷ n / 2 ^ 32 % 256
    ∷ n / 2 ^ 24 % 256
    ∷ n / 2 ^ 16 % 256
    ∷ n / 2 ^ 8 % 256
    ∷ n % 256
    ∷ []

pack_q_total : (n : ℕ) → n < 2 ^ 64 → (s : Text) × (pack_q n ≡ ok s)
unfolding pack_q
pack_q_total n h = elim (Bool-cases (ltb n (2 ^ 64))) [
  | inl e ↦ (packed n, ground (arith, e))
  | inr e ↦ absurd (ground (arith, h))
]

all_ascii-decimal_loop :
    (fuel n : ℕ) (rest : Text) → all_ascii rest ≡ true → all_ascii (decimal_loop fuel n rest) ≡ true
unfolding all_ascii decimal_loop
all_ascii-decimal_loop zero n rest h = h
all_ascii-decimal_loop (suc fuel) n rest h =
    ground (arith, all_ascii-decimal_loop fuel (n / 10) ((48 + n % 10) ∷ rest))

all_ascii-zeros : (n : ℕ) (s : Text) → all_ascii s ≡ true → all_ascii (zeros n ++ s) ≡ true
unfolding all_ascii
all_ascii-zeros zero s h = h
all_ascii-zeros (suc n) s h = all_ascii-zeros n s h

all_ascii-zfill : (k n : ℕ) → all_ascii (zfill k (decimal n)) ≡ true
unfolding zfill decimal
all_ascii-zfill k n =
    all_ascii-zeros _ _ (all_ascii-decimal_loop (suc n) n [] (unfold all_ascii in refl))

truncate_total :
    (digest : Text)
    → length digest ≡ 20
    → (s : Text) × (truncate digest 6 ≡ ok s) × (length s ≡ 6) × (all_ascii s ≡ true)
unfolding truncate
truncate_total digest h =
    let (last, p) = last_byte_total digest (omega arith) in
    let (word, q) =
      unpack_i_total (take 4 (drop (last % 16) digest))
        (length-take-drop 4 (last % 16) digest (omega arith)) in
    (
      zfill 6 (decimal (word % 2 ^ 31 % 10 ^ 6)),
      rw (p, q),
      length-zfill-decimal 5 _ (omega arith),
      all_ascii-zfill 6 _,
    )

module _ (L : TotpLibrary)
    (sha1 : (key message : Text) → length (L.hmac_sha1 key message) ≡ 20) where
  -- A counter below 2^64 has a code, of six ASCII characters.
  pub counter_code_total :
      (key : Text) (counter : ℕ)
      → counter < 2 ^ 64
      → (s : Text) × (counter_code L key 6 counter ≡ ok s) × (length s ≡ 6) × (all_ascii s ≡ true)
  unfolding counter_code
  counter_code_total key counter h =
      let (m, p) = pack_q_total counter h in
      let (s, q, six, ascii) = truncate_total (L.hmac_sha1 key m) (sha1 key m) in
      (s, rw p q, six, ascii)

  scan-ne-err :
      (rounds index : ℕ) (key code : Text) (current window : ℕ) (last : Option ℕ) (e : Fault)
      → current + index + rounds ≤ 2 ^ 64
      → all_ascii code ≡ true
      → scan L rounds index key code current window last ≢ err e
  unfolding scan compare_digest
  scan-ne-err zero index key code current window last e h a = λ p. cc p
  scan-ne-err (suc rounds) index key code current window last e h a =
      let (s, p, six, ascii) = counter_code_total key (current + index - window) (omega arith) in
      ground (arith, p, ascii, scan-ne-err rounds (suc index) key code current window last e)

  -- With ASCII text as the code, a secret that decodes, an HMAC of twenty bytes and counters of the
  -- window below 2^64, verification returns, it never raises.
  pub verify_totp_total :
      (secret code key : Text) (unix_time step window : ℕ) (last : Option ℕ)
      → decode_base32 L secret ≡ ok key
      → all_ascii code ≡ true
      → unix_time / step + 2 * window + 1 ≤ 2 ^ 64
      → (r : Option ℕ) × (verify_totp L secret code unix_time step window last ≡ ok r)
  unfolding verify_totp
  verify_totp_total secret code key unix_time step window last k a h =
      elim (Result-cases (verify_totp L secret code unix_time step window last)) [
        | inl (r, p) ↦ (r, p)
        | inr (e, p) ↦ absurd (
            ground (
              arith,
              p,
              k,
              scan-ne-err (2 * window + 1) 0 key code (unix_time / step) window last e,
            ))
      ]
