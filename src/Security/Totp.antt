-- ===== src/Security/Totp.antt =====
-- `_decode_base32`, `totp_code` and `verify_totp` of src/titanbox/security.py. Bytes are numbers
-- below 256. What Python's library does (Unicode properties, Base32, HMAC-SHA1) is a parameter.
pub mod Digits
pub mod Laws
pub mod Total
use Prim.Native.Nat.{bit_and}
use vpsssssskjwjw.Prelude.{
  ℕ, zero, suc, ◌+◌, ◌-◌, ◌*◌, ◌/◌, ◌%◌, ◌^◌, Bool, true, false, ◌&&◌, ◌||◌, not, Option, none,
  some, List, [], ◌∷◌, ◌++◌, Text, text_eq, nat_eq, ◌==◌, ltb, leb, length, take, drop,
  if◌then◌else◌, reverse,
}
use vpsssssskjwjw.Prelude.Result.{Result, ok, err, ◌>>=◌, ◌>>◌, guard, from_option}
use vpsssssskjwjw.Security.Totp.Digits.{decimal, zfill}

pub data Fault : Type 0 where
  value_error type_error struct_error index_error : Fault

pub record TotpLibrary : Type 0 where
  pub is_space : ℕ → Bool
  pub is_digit : ℕ → Bool
  pub upper : Text → Text
  pub b32decode : Text → Option Text
  pub hmac_sha1 : Text → Text → Text

-- `"".join(secret.split())`
abbrev remove_spaces : (ℕ → Bool) → Text → Text
remove_spaces is_space [] = []
remove_spaces is_space (c ∷ s) =
    if is_space c then remove_spaces is_space s else c ∷ remove_spaces is_space s

abbrev drop_padding : Text → Text
drop_padding [] = []
drop_padding (c ∷ s) = let rest = drop_padding s in if c == b'=' then rest else c ∷ s

-- `rstrip("=")`
abbrev strip_padding : Text → Text
strip_padding s = reverse (drop_padding (reverse s))

abbrev padding : ℕ → Text
padding zero = []
padding (suc n) = b'=' ∷ padding n

unfoldable pub all_digits : (ℕ → Bool) → Text → Bool
all_digits is_digit [] = true
all_digits is_digit (c ∷ s) = is_digit c && all_digits is_digit s

unfoldable pub all_ascii : Text → Bool
all_ascii [] = true
all_ascii (c ∷ s) = ltb c 128 && all_ascii s

-- `struct.pack(">Q", counter)`
unfoldable pub pack_q : ℕ → Result Fault Text
pack_q n =
    if ltb n (2 ^ 64)
    then ok (
        n / 2 ^ 56 % 256
        ∷ n / 2 ^ 48 % 256
        ∷ n / 2 ^ 40 % 256
        ∷ n / 2 ^ 32 % 256
        ∷ n / 2 ^ 24 % 256
        ∷ n / 2 ^ 16 % 256
        ∷ n / 2 ^ 8 % 256
        ∷ n % 256
        ∷ [])
    else err struct_error

-- `struct.unpack(">I", s)[0]`
unfoldable pub unpack_i : Text → Result Fault ℕ
unpack_i (a ∷ b ∷ c ∷ d ∷ []) = ok (a * 2 ^ 24 + b * 2 ^ 16 + c * 2 ^ 8 + d)
unpack_i s = err struct_error

-- `digest[-1]`
unfoldable pub last_byte : Text → Result Fault ℕ
last_byte [] = err index_error
last_byte (c ∷ []) = ok c
last_byte (c ∷ d ∷ s) = last_byte (d ∷ s)

-- `hmac.compare_digest` on two `str`
unfoldable pub compare_digest : Text → Text → Result Fault Bool
compare_digest s t = if all_ascii s && all_ascii t then ok (s == t) else err type_error

-- The dynamic truncation; `& 0x0F` and `& 0x7FFFFFFF` are remainders.
unfoldable pub truncate : Text → ℕ → Result Fault Text
truncate digest digits = do
  last ← last_byte digest
  word ← unpack_i (take 4 (drop (last % 16) digest))
  ok (zfill digits (decimal (word % 2 ^ 31 % 10 ^ digits)))

-- `last_counter is not None and counter <= last_counter`
abbrev pub is_used : Option ℕ → ℕ → Bool
is_used none counter = false
is_used (some last) counter = leb counter last

module _ (L : TotpLibrary) where
  open L use {is_space, is_digit, upper, b32decode, hmac_sha1}

  unfoldable pub decode_base32 : Text → Result Fault Text
  decode_base32 secret =
      let normalized = strip_padding (upper (remove_spaces is_space secret)) in
      if normalized == []
      then err value_error
      else from_option value_error
          (b32decode (normalized ++ padding ((8 - length normalized % 8) % 8)))

  -- The code of one counter: the lines that `totp_code` and the loop of `verify_totp` share.
  unfoldable pub counter_code : Text → ℕ → ℕ → Result Fault Text
  counter_code key digits counter = do
    message ← pack_q counter
    truncate (hmac_sha1 key message) digits

  unfoldable pub totp_code : Text → ℕ → ℕ → ℕ → Result Fault Text
  totp_code secret unix_time step_seconds digits = do
    key ← decode_base32 secret
    counter_code key digits (unix_time / step_seconds)

  -- The loop over `delta`, from `delta = index - window` on; `rounds` are left.
  unfoldable pub scan : ℕ → ℕ → Text → Text → ℕ → ℕ → Option ℕ → Result Fault (Option ℕ)
  scan zero index key code current window last = ok none
  scan (suc rounds) index key code current window last =
      let rest = scan rounds (suc index) key code current window last in
      let counter = current + index - window in
      if ltb (current + index) window || is_used last counter then rest else (do
        expected ← counter_code key 6 counter
        same ← compare_digest expected code
        if same then ok (some counter) else rest)

  unfoldable pub verify_totp : Text → Text → ℕ → ℕ → ℕ → Option ℕ → Result Fault (Option ℕ)
  verify_totp secret code unix_time step_seconds window last =
      if not (all_digits is_digit code && (length code == 6)) then ok none else (do
        key ← decode_base32 secret
        scan (2 * window + 1) 0 key code (unix_time / step_seconds) window last)
