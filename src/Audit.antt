-- ===== src/Audit.antt =====
-- `AuditLog` of src/titanbox/audit.py: a file of lines, one JSON record to a line, each with the MAC
-- of the one before it. JSON, the MAC (keyed or not) and the sizes in bytes are a parameter, and
-- whether the operating system lets a rotation or a write succeed is an argument.
pub mod Chain
pub mod Tamper
use vpsssssskjwjw.Prelude.{
  ℕ, zero, suc, ◌+◌, ◌-◌, max, min, Bool, true, false, ◌&&◌, not, Option, none, some, List, [], ◌∷◌,
  ◌++◌, Text, text_eq, nat_eq, ◌==◌, ◌≡◌, leb, ltb, take, drop, length, reverse, if◌then◌else◌,
}

-- What `json.loads` makes of a line: it raises, the value has no `pop` or `get` at all, its `pop`
-- wants a number (a list), or it is an object with or without `"mac"`.
pub data Loaded (Fields : Type 0) : Type 0 where
  malformed plain listed : Loaded Fields
  object : Option Text → Fields → Loaded Fields

pub record Entry (Detail : Type 0) : Type 0 where
  pub ts : ℕ
  pub action : Text
  pub actor_id : Option ℕ
  pub result : Text
  pub project : Option Text
  pub detail : Detail
  pub prev_mac : Text

-- `Fields` is a record without its `"mac"`.
pub record AuditLibrary : Type 1 where
  pub Detail : Type 0
  pub Fields : Type 0
  pub fields : Entry Detail → Fields
  pub get_prev_mac : Fields → Option Text
  pub canonical : Fields → Text
  pub mac : Text → Text
  pub dumps : Fields → Text → Text
  pub loads : Text → Loaded Fields
  pub size : Text → ℕ

-- What the code relies on.
pub record IsLawful (L : AuditLibrary) : Type 0 where
  pub loads-dumps : (f : L.Fields) (m : Text) → L.loads (L.dumps f m) ≡ object (some m) f
  pub prev_mac-fields : (e : Entry L.Detail) → L.get_prev_mac (L.fields e) ≡ some e.prev_mac
  pub length-mac : (t : Text) → length (L.mac t) ≡ 64

abbrev zeros : ℕ → Text
zeros zero = []
zeros (suc n) = b'0' ∷ zeros n

-- `"0" * 64`
abbrev pub no_mac : Text
no_mac = zeros 64

-- `none` is a file that does not exist.
pub record AuditLog : Type 0 where
  pub file : Option (List Text)
  pub rotated : Option (List Text)
  pub previous_mac : Text
  pub max_bytes : ℕ

-- How far a rotation gets: an `OSError` can stop it before or after the old copy is removed.
pub data Rotation : Type 0 where
  done unlinked stopped : Rotation

-- A Boolean answer, or an exception that `verify` does not catch.
pub data Verdict : Type 0 where
  answer : Bool → Verdict
  raised : Verdict

abbrev pub lines_of : Option (List Text) → List Text
lines_of none = []
lines_of (some lines) = lines

module _ (L : AuditLibrary) where
  open L use {Detail, Fields, fields, get_prev_mac, canonical, mac, dumps, loads, size}

  -- The loop of `_last_mac` over the last lines, newest first; `none` is the `AttributeError` of a
  -- line that is no object.
  unfoldable pub newest_mac : List Text → Option Text
  newest_mac [] = some no_mac
  newest_mac (line ∷ lines) =
      let rest = newest_mac lines in
      elim (loads line) [
        | malformed ↦ rest
        | plain ↦ none
        | listed ↦ none
        | object none f ↦ rest
        | object (some m) f ↦ if length m == 64 then some m else rest
      ]

  unfoldable pub last_mac : Option (List Text) → Option Text
  last_mac file = newest_mac (take 20 (reverse (lines_of file)))

  unfoldable pub file_size : List Text → ℕ
  file_size [] = 0
  file_size (line ∷ lines) = size line + 1 + file_size lines

  unfoldable pub rotate_if_needed : Rotation → AuditLog → AuditLog
  rotate_if_needed outcome a = elim a.file [
    | none ↦ a
    | some lines ↦ if ltb (file_size lines) a.max_bytes then a else elim outcome [
      | done ↦ record a { rotated = some lines; file = none; previous_mac = no_mac }
      | unlinked ↦ record a { rotated = none }
      | stopped ↦ a
    ]
  ]

  -- `append`, for the values that are given to it and the clock; `written` is whether the write to
  -- the file succeeds. A project that is empty counts as none.
  abbrev cut_project : Option Text → Option Text
  cut_project none = none
  cut_project (some []) = none
  cut_project (some (c ∷ name)) = some (take 64 (c ∷ name))

  unfoldable pub entry : Text → Option ℕ → Text → Option Text → Detail → ℕ → AuditLog → Entry Detail
  entry action actor_id result project detail now a = record {
    ts = now;
    action = take 80 action;
    actor_id = actor_id;
    result = take 40 result;
    project = cut_project project;
    detail = detail;
    prev_mac = a.previous_mac;
  }

  -- The line is written and the MAC becomes the previous one, or neither.
  unfoldable pub write : Bool → Fields → AuditLog → AuditLog
  write written f a =
      let m = mac (canonical f) in
      if written
      then record a { file = some (lines_of a.file ++ (dumps f m ∷ [])); previous_mac = m }
      else a

  unfoldable pub append :
      Rotation → Bool → Text → Option ℕ → Text → Option Text → Detail → ℕ → AuditLog → AuditLog
  append outcome written action actor_id result project detail now a =
      let a' = rotate_if_needed outcome a in
      write written (fields (entry action actor_id result project detail now a')) a'

  -- The loop of `verify`: a missing `"mac"` is a `KeyError` and a value with no `pop` an
  -- `AttributeError`, which nothing catches.
  unfoldable pub verify_lines : Text → List Text → Verdict
  verify_lines previous [] = answer true
  verify_lines previous (line ∷ lines) = elim (loads line) [
    | malformed ↦ answer false
    | plain ↦ raised
    | listed ↦ answer false
    | object none f ↦ raised
    | object (some m) f ↦
        let rest = verify_lines m lines in
        elim (get_prev_mac f) [
          | none ↦ answer false
          | some p ↦
              if not (p == previous)
              then answer false
              else if m == mac (canonical f)
              then rest
              else answer false
        ]
  ]

  unfoldable pub verify : AuditLog → Verdict
  verify a = verify_lines no_mac (lines_of a.file)

  -- `tail`: the last lines that are objects, at most `limit` of them.
  unfoldable pub objects : List Text → List (Option Text × Fields)
  objects [] = []
  objects (line ∷ lines) =
      let rest = objects lines in elim (loads line) [ object m f ↦ (m, f) ∷ rest | _ ↦ rest ]

  unfoldable pub tail : ℕ → AuditLog → List (Option Text × Fields)
  tail limit a =
      let lines = lines_of a.file in objects (drop (length lines - min (max 1 limit) 100) lines)
