-- ===== src/Storage.antt =====
-- `DurableReleaseStore` of src/titanbox/storage.py for one project, over an object store. The object
-- store's listing, `json`, HMAC and SHA-256 are parameters. A call of the object store on a key fails
-- if the key is not in `up`, which is the same for all calls of one method, and a call that fails
-- changes nothing.
pub mod Markers
pub mod Releases
pub mod Latest
pub mod Integrity
use vpsssssskjwjw.Prelude.{
  ℕ, ◌+◌, ◌*◌, min, max, Bool, true, false, ◌&&◌, ◌||◌, not, Option, none, some, List, [], ◌∷◌,
  ◌++◌, Text, text_eq, nat_eq, ◌==◌, codes, leb, ltb, length, take, drop, All, if◌then◌else◌,
}
use vpsssssskjwjw.Prelude.Dict.{Dict, lookup, insert, erase}
use vpsssssskjwjw.Prelude.Result.{Result, ok, err, ◌>>=◌, ◌>>◌, guard, from_option}

-- The metadata and the markers. `none` is a field that is missing or has the wrong type; texts that
-- are missing are empty. A time of activation is a natural number, as the store writes it. `rest` is
-- the JSON of the fields that nothing reads but the signature covers: the version, the files and
-- the time of creation.
pub record Payload : Type 0 where
  pub project : Option Text
  pub release : Option Text
  pub sha256 : Text
  pub size : Option ℕ
  pub state : Text
  pub activated_at : Option ℕ
  pub signature : Text
  pub rest : Text

pub data Json : Type 0 where
  object : Payload → Json
  null other_json : Json

-- `StorageError`, `StorageIntegrityError` and what else escapes.
pub data Fault : Type 0 where
  storage_error integrity_error other_error : Fault

abbrev pub Objects : Type 0
Objects = Dict Text Text

-- `details` is the rest of the metadata of an archive, and `version` that of a marker.
pub record StorageLibrary : Type 0 where
  pub loads : Text → Option Json
  pub dumps : Payload → Text
  pub hmac : Text → Payload → Text
  pub sha256 : Text → Text
  pub details : Text → Text
  pub version : Text
  pub list_keys : Text → ℕ → Objects → List Text

pub record Config : Type 0 where
  pub enabled : Bool
  pub keep_releases : ℕ
  pub signing_key : Option Text

-- `[A-Za-z0-9]` and `[A-Za-z0-9._-]`
abbrev is_alnum : ℕ → Bool
is_alnum c = (leb 48 c && leb c 57) || ((leb 65 c && leb c 90) || (leb 97 c && leb c 122))

abbrev name_chars : Text → Bool
name_chars [] = true
name_chars (c ∷ s) = (is_alnum c || (c == 46 || (c == 95 || c == 45))) && name_chars s

abbrev pub matches_name : ℕ → Text → Bool
matches_name most [] = false
matches_name most (c ∷ s) = is_alnum c && (name_chars s && leb (length s) most)

unfoldable pub safe_project : Text → Result Fault (Unit {0})
safe_project p = guard (matches_name 63 p) storage_error

unfoldable pub safe_release : Text → Result Fault (Unit {0})
safe_release r = guard (matches_name 96 r) storage_error

-- `[0-9a-f]{64}`
abbrev hex_chars : Text → Bool
hex_chars [] = true
hex_chars (c ∷ s) = ((leb 48 c && leb c 57) || (leb 97 c && leb c 102)) && hex_chars s

unfoldable pub is_sha256 : Text → Bool
is_sha256 s = length s == 64 && hex_chars s

unfoldable pub folder : Text → Text
folder project = codes "releases/" ++ (project ++ codes "/")

unfoldable pub zip_key : Text → Text → Text
unfolding folder
zip_key project release = folder project ++ (release ++ codes ".zip")

unfoldable pub metadata_key : Text → Text → Text
unfolding folder
metadata_key project release = folder project ++ (release ++ codes ".json")

unfoldable pub marker_key : Text → Text → Text
unfolding folder
marker_key project release = folder project ++ (release ++ codes ".active.json")

unfoldable pub latest_key : Text → Text
unfolding folder
latest_key project = folder project ++ codes "latest.json"

-- `hmac.compare_digest` of two texts, which refuses a character that is not ASCII.
abbrev all_ascii : Text → Bool
all_ascii [] = true
all_ascii (c ∷ s) = ltb c 128 && all_ascii s

unfoldable pub compare_digest : Text → Text → Result Fault Bool
compare_digest s t = guard (all_ascii s && all_ascii t) other_error >> ok (s == t)

-- `==` with a text
abbrev pub is_text : Option Text → Text → Bool
is_text none t = false
is_text (some s) t = s == t

-- A call of the object store on a key.
abbrev pub call : (Text → Bool) → Text → Result Fault (Unit {0})
call up key = guard (up key) other_error

-- `get_bytes(key, max_bytes=100_000)`
unfoldable pub get_bytes : (Text → Bool) → Text → Objects → Result Fault Text
get_bytes up key s = do
  call up key
  content ← from_option other_error (lookup key s)
  guard (leb (length content) 100000) storage_error
  ok content

-- `put_bytes` and `delete_key`, with whether the call succeeded.
unfoldable pub put_bytes : (Text → Bool) → Text → Text → Objects → Bool × Objects
put_bytes up key content s = if up key then (true, insert key content s) else (false, s)

unfoldable pub delete_key : (Text → Bool) → Text → Objects → Objects
delete_key up key s = if up key then erase key s else s

-- The text after a prefix.
abbrev after_prefix : Text → Text → Option Text
after_prefix [] s = some s
after_prefix (c ∷ p) [] = none
after_prefix (c ∷ p) (d ∷ s) = if c == d then after_prefix p s else none

-- The text before a suffix.
abbrev before_suffix : Text → Text → Option Text
before_suffix suffix [] = if suffix == [] then some [] else none
before_suffix suffix (c ∷ s) =
    let rest = before_suffix suffix s in
    if suffix == (c ∷ s) then some [] else elim rest [ none ↦ none | some t ↦ some (c ∷ t) ]

-- The names of the releases whose marker is among the keys.
unfoldable pub marker_names : Text → List Text → List Text
marker_names project [] = []
marker_names project (key ∷ keys) =
    let names = marker_names project keys in
    elim (after_prefix (folder project) key) [
      | none ↦ names
      | some rest ↦ elim (before_suffix (codes ".active.json") rest) [
        | none ↦ names
        | some name ↦ if matches_name 96 name then name ∷ names else names
      ]
    ]

-- The order of texts, and of rows, newest first.
abbrev text_lt : Text → Text → Bool
text_lt s [] = false
text_lt [] (d ∷ t) = true
text_lt (c ∷ s) (d ∷ t) = let rest = text_lt s t in ltb c d || (c == d && rest)

abbrev row_lt : ℕ × Text → ℕ × Text → Bool
row_lt (m, s) (n, t) = ltb m n || (m == n && text_lt s t)

unfoldable pub insert_row : ℕ × Text → List (ℕ × Text) → List (ℕ × Text)
insert_row r [] = r ∷ []
insert_row r (x ∷ xs) = let rest = insert_row r xs in if row_lt r x then x ∷ rest else r ∷ x ∷ xs

unfoldable pub sort_rows : List (ℕ × Text) → List (ℕ × Text)
sort_rows [] = []
sort_rows (r ∷ rs) = insert_row r (sort_rows rs)

abbrev pub names_of : List (ℕ × Text) → List Text
names_of [] = []
names_of ((at, name) ∷ rows) = name ∷ names_of rows

-- `min(max(1, limit), 500)`
abbrev pub clamp_limit : ℕ → ℕ
clamp_limit n = min (max 1 n) 500
