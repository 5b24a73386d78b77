-- ===== src/Security/Totp/Digits.antt =====
-- `str(n)` and `zfill`, which src/titanbox/security.py uses to print a code.
use native.Mathlib.Nat.{pow-suc}
use vpsssssskjwjw.Prelude.{
  ℕ, zero, suc, ◌+◌, ◌-◌, ◌/◌, ◌%◌, ◌^◌, ◌≤◌, ◌<◌, ◌≡◌, [], ◌∷◌, ◌++◌, Text, ltb, length,
  if◌then◌else◌, arith, length-append,
}

-- The digits of `n` in front of `rest`; `fuel` above `n` is enough, since each round divides by 10.
unfoldable pub decimal_loop : ℕ → ℕ → Text → Text
decimal_loop zero n rest = rest
decimal_loop (suc fuel) n rest =
    let more = decimal_loop fuel (n / 10) ((48 + n % 10) ∷ rest) in
    if ltb n 10 then (48 + n) ∷ rest else more

-- `str(n)`
unfoldable pub decimal : ℕ → Text
unfolding decimal_loop
decimal n = decimal_loop (suc n) n []

abbrev pub zeros : ℕ → Text
zeros zero = []
zeros (suc n) = b'0' ∷ zeros n

-- `s.zfill(width)` for a text of digits
unfoldable pub zfill : ℕ → Text → Text
zfill width s = zeros (width - length s) ++ s

length-zeros : (n : ℕ) → length (zeros n) ≡ n
length-zeros zero = omega arith
length-zeros (suc n) = omega (arith, length-zeros n)

length-decimal_loop-le :
    (fuel n k : ℕ) (rest : Text)
    → n < 10 ^ suc k
    → length (decimal_loop fuel n rest) ≤ suc k + length rest
unfolding decimal_loop
length-decimal_loop-le zero n k rest h = omega arith
length-decimal_loop-le (suc fuel) n zero rest h = ground (arith, h)
length-decimal_loop-le (suc fuel) n (suc k) rest h = ground (
  arith,
  length-decimal_loop-le fuel (n / 10) k ((48 + n % 10) ∷ rest)
      (omega (arith, pow-suc 10 (suc k), h)),
)

pub length-zfill-decimal : (k n : ℕ) → n < 10 ^ suc k → length (zfill (suc k) (decimal n)) ≡ suc k
unfolding zfill decimal
length-zfill-decimal k n h = omega (
  arith,
  length-append (zeros (suc k - length (decimal n))) (decimal n),
  length-zeros (suc k - length (decimal n)),
  length-decimal_loop-le (suc n) n k [] h,
)
