-- ===== src/Deploy/Manifest.antt =====
-- The integrity manifest of a release: `_tree_digest`, `_write_manifest` and `_verify_manifest` of
-- src/titanbox/deploy.py. A tree is its regular files in sorted order, without the manifest; paths
-- and contents are bytes. SHA-256 is a parameter, and so is the parsed form of the manifest file.
pub mod Laws
pub mod Tamper
use vpsssssskjwjw.Prelude.{
  ℕ, ◌+◌, ◌/◌, ◌%◌, ◌^◌, Bool, true, false, ◌&&◌, ◌||◌, not, Option, none, some, List, [], ◌∷◌,
  ◌++◌, map, Text, text_eq, nat_eq, ◌==◌, contains, ltb, length, if◌then◌else◌,
}
use vpsssssskjwjw.Prelude.Dict.{Dict, lookup}
use vpsssssskjwjw.Prelude.Result.{Result, ok, err, ◌>>=◌, ◌>>◌, guard}

-- An entry of `"files"`: no object, an object whose size is no integer, or a size (`none` if it is
-- missing or negative) and the text of the checksum.
pub data FileRecord : Type 0 where
  no_object bad_size : FileRecord
  entry : Option ℕ → Text → FileRecord

-- `"files"` is `none` where it is no object.
pub record Manifest : Type 0 where
  pub is_format_one : Bool
  pub tree_sha256 : Text
  pub files : Option (Dict Text FileRecord)

pub data ManifestFile : Type 0 where
  missing unreadable not_an_object : ManifestFile
  readable : Manifest → ManifestFile

pub record Tree : Type 0 where
  pub files : Dict Text Text
  pub manifest : ManifestFile

-- The `DeployError`s of `_verify_manifest`.
-- `no_get` is the `AttributeError` of `payload.get` where the manifest is JSON but no object.
pub data Failure : Type 0 where
  manifest_missing manifest_unreadable no_get format_invalid tree_mismatch file_set_mismatch :
      Failure
  record_invalid size_invalid size_mismatch checksum_mismatch : Text → Failure

-- `encode("ascii", "ignore")`
unfoldable pub ascii : Text → Text
ascii [] = []
ascii (c ∷ s) = let rest = ascii s in if ltb c 128 then c ∷ rest else rest

unfoldable pub hmac_compare_digest : Text → Text → Bool
unfolding ascii
hmac_compare_digest s t = ascii s == ascii t

-- `len(rel).to_bytes(4, "big")`
abbrev four_bytes : ℕ → Text
four_bytes n = n / 2 ^ 24 % 256 ∷ n / 2 ^ 16 % 256 ∷ n / 2 ^ 8 % 256 ∷ n % 256 ∷ []

-- What the digest of the tree is fed.
unfoldable pub stream : Dict Text Text → Text
stream [] = []
stream ((rel, content) ∷ files) = four_bytes (length rel) ++ (rel ++ (content ++ stream files))

abbrev pub keys {ℓ} : {V : Type ℓ} → Dict Text V → List Text
keys [] = []
keys ((k, v) ∷ d) = k ∷ keys d

unfoldable pub is_subset : List Text → List Text → Bool
is_subset [] ys = true
is_subset (x ∷ xs) ys = contains ys x && is_subset xs ys

-- `set(xs) == set(ys)`
abbrev pub same_set : List Text → List Text → Bool
same_set xs ys = is_subset xs ys && is_subset ys xs

module _ (sha256 : Text → Text) where
  unfoldable pub tree_digest : Tree → Text
  unfolding stream
  tree_digest t = sha256 (stream t.files)

  unfoldable pub file_records : Dict Text Text → Dict Text FileRecord
  file_records [] = []
  file_records ((rel, content) ∷ files) =
      (rel, entry (some (length content)) (sha256 content)) ∷ file_records files

  unfoldable pub write_manifest : Tree → Text × Tree
  write_manifest t = (
    tree_digest t,
    record t {
      manifest = readable (record {
        is_format_one = true;
        tree_sha256 = tree_digest t;
        files = some (file_records t.files);
      });
    },
  )

  -- The checks of one file against its record.
  unfoldable pub check_record : Text → Text → Option FileRecord → Result Failure (Unit {0})
  check_record rel content none = err (record_invalid rel)
  check_record rel content (some no_object) = err (record_invalid rel)
  check_record rel content (some bad_size) = err (size_invalid rel)
  check_record rel content (some (entry none sha)) = err (size_mismatch rel)
  check_record rel content (some (entry (some n) sha)) =
      if not (n == length content)
      then err (size_mismatch rel)
      else guard (hmac_compare_digest sha (sha256 content)) (checksum_mismatch rel)

  -- The loop over the files of the tree.
  unfoldable pub check_files : Dict Text Text → Dict Text FileRecord → Result Failure (Unit {0})
  check_files [] expected = ok tt
  check_files ((rel, content) ∷ files) expected =
      check_record rel content (lookup rel expected) >> check_files files expected

  unfoldable pub verify_readable : Manifest → Tree → Result Failure Text
  verify_readable m t = elim m.files [
    | none ↦ err format_invalid
    | some expected ↦ do
      guard m.is_format_one format_invalid
      guard (hmac_compare_digest m.tree_sha256 (tree_digest t)) tree_mismatch
      guard (same_set (keys t.files) (keys expected)) file_set_mismatch
      check_files t.files expected
      ok (tree_digest t)
  ]

  unfoldable pub verify_manifest : Tree → Result Failure Text
  verify_manifest t = elim t.manifest [
    | missing ↦ err manifest_missing
    | unreadable ↦ err manifest_unreadable
    | not_an_object ↦ err no_get
    | readable m ↦ verify_readable m t
  ]
