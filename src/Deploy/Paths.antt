-- ===== src/Deploy/Paths.antt =====
-- The names that come from outside in src/titanbox/deploy.py: `validate_project_name`,
-- `validate_relative_path`, `safe_filename` and `_zip_member_path`. What Unicode says of a character
-- is a parameter.
pub mod Laws
use vpsssssskjwjw.Prelude.{
  ℕ, Bool, true, false, ◌&&◌, ◌||◌, not, Option, none, some, List, [], ◌∷◌, ◌++◌, reverse, Text,
  text_eq, nat_eq, ◌==◌, codes, contains, leb, length, if◌then◌else◌,
}
use vpsssssskjwjw.Prelude.Result.{Result, ok, err, ◌>>=◌, ◌>>◌, guard}
use vpsssssskjwjw.Storage.{matches_name}

-- `str.isspace`, the categories Cc and Cf, and the normal form C.
pub record UnicodeLibrary : Type 0 where
  pub is_space : ℕ → Bool
  pub is_invisible : ℕ → Bool
  pub nfc : Text → Text

pub data PathError : Type 0 where
  invalid_project invalid_path invisible ambiguous outside invalid_filename too_long : PathError

unfoldable pub drop_spaces : (ℕ → Bool) → Text → Text
drop_spaces is_space [] = []
drop_spaces is_space (c ∷ s) =
    let rest = drop_spaces is_space s in if is_space c then rest else c ∷ s

-- `str.strip`
unfoldable pub strip : (ℕ → Bool) → Text → Text
strip is_space s = reverse (drop_spaces is_space (reverse (drop_spaces is_space s)))

-- `value.replace("\\", "/")`
unfoldable pub to_slashes : Text → Text
to_slashes [] = []
to_slashes (c ∷ s) = (if c == 92 then 47 else c) ∷ to_slashes s

abbrev pub any_char : (ℕ → Bool) → Text → Bool
any_char p [] = false
any_char p (c ∷ s) = p c || any_char p s

abbrev pub starts_with : Text → Text → Bool
starts_with [] s = true
starts_with (c ∷ p) [] = false
starts_with (c ∷ p) (d ∷ s) = c == d && starts_with p s

abbrev pub has_double_slash : Text → Bool
has_double_slash [] = false
has_double_slash (c ∷ s) = starts_with (codes "//") (c ∷ s) || has_double_slash s

abbrev pub cons_first : ℕ → List Text → List Text
cons_first c [] = (c ∷ []) ∷ []
cons_first c (p ∷ ps) = (c ∷ p) ∷ ps

-- `s.split("/")`
unfoldable pub split_slash : Text → List Text
split_slash [] = [] ∷ []
split_slash (c ∷ s) = let rest = split_slash s in if c == 47 then [] ∷ rest else cons_first c rest

abbrev pub dot : Text
dot = codes "."

abbrev pub dot_dot : Text
dot_dot = codes ".."

-- What `PurePosixPath` keeps of the components: neither the empty ones nor the dots.
unfoldable pub components : List Text → List Text
components [] = []
components (p ∷ ps) = let rest = components ps in if p == [] || p == dot then rest else p ∷ rest

-- `PurePosixPath(value).parts` of a path that is not absolute.
unfoldable pub parts : Text → List Text
parts s = components (split_slash s)

-- `path.as_posix()` of a path that is not absolute; the empty path is a dot.
unfoldable pub join_slash : List Text → Text
join_slash [] = dot
join_slash (p ∷ []) = p
join_slash (p ∷ q ∷ ps) = p ++ (codes "/" ++ join_slash (q ∷ ps))

unfoldable pub validate_project_name : UnicodeLibrary → Text → Result PathError Text
validate_project_name U name =
    let value = strip U.is_space name in guard (matches_name 63 value) invalid_project >> ok value

-- The test that both kinds of path share.
unfoldable pub check_parts : Text → Result PathError (List Text)
check_parts value =
    guard (not (starts_with (codes "/") value || contains (parts value) dot_dot)) outside
    >> ok (parts value)

unfoldable pub validate_relative_path : UnicodeLibrary → Text → Result PathError (List Text)
validate_relative_path U raw = do
  let value = to_slashes (strip U.is_space raw)
  guard (not (value == []) && (not (contains value 0) && leb (length value) 240)) invalid_path
  guard (not (any_char U.is_invisible value)) invisible
  guard (not (starts_with (codes "./") value || has_double_slash value)) ambiguous
  check_parts value

-- `Path(raw).name`
abbrev pub last_part : List Text → Text
last_part [] = []
last_part (p ∷ []) = p
last_part (p ∷ q ∷ ps) = last_part (q ∷ ps)

unfoldable pub safe_filename : UnicodeLibrary → Text → Result PathError Text
safe_filename U raw = do
  guard (not (raw == []) && not (contains raw 0)) invalid_filename
  let name = last_part (parts raw)
  guard (not (contains ([] ∷ dot ∷ dot_dot ∷ []) name) && leb (length name) 180) invalid_filename
  guard (not (any_char U.is_invisible name)) invisible
  ok (U.nfc name)

unfoldable pub zip_member_path : UnicodeLibrary → Text → Result PathError (List Text)
zip_member_path U name = do
  guard (not (name == []) && not (contains name 0)) invalid_path
  guard (not (any_char U.is_invisible name)) invisible
  let normalized = to_slashes (U.nfc name)
  guard (not (starts_with (codes "./") normalized || has_double_slash normalized)) ambiguous
  path ← check_parts normalized
  guard (leb (length normalized) 512) too_long
  ok path
