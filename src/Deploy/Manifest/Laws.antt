-- ===== src/Deploy/Manifest/Laws.antt =====
-- A manifest that was written verifies, and one that verifies fixes every file.
use vpsssssskjwjw.Prelude.{
  ◌≡◌, refl, ap, true, Option, none, some, List, [], ◌∷◌, Text, text_eq, nat_eq, length, arith,
}
use vpsssssskjwjw.Prelude.Dict.{Dict, lookup}
use vpsssssskjwjw.Prelude.Result.{ok}
use vpsssssskjwjw.Deploy.Manifest.{
  FileRecord, no_object, bad_size, entry, Tree, ascii, hmac_compare_digest, keys, is_subset,
  tree_digest, file_records, write_manifest, check_record, check_files, verify_readable,
  verify_manifest,
}

abbrev pub NodupKeys : Dict Text Text → Type 0
NodupKeys [] = Unit
NodupKeys ((k, v) ∷ d) = (lookup k d ≡ none) × NodupKeys d

is_subset-weaken :
    (y : Text) (xs ys : List Text) → is_subset xs ys ≡ true → is_subset xs (y ∷ ys) ≡ true
unfolding is_subset
is_subset-weaken y [] ys h = refl
is_subset-weaken y (x ∷ xs) ys h = ground (arith, is_subset-weaken y xs ys, h)

is_subset_self : (xs : List Text) → is_subset xs xs ≡ true
unfolding is_subset
is_subset_self [] = refl
is_subset_self (x ∷ xs) = ground (arith, is_subset-weaken x xs xs (is_subset_self xs))

module _ (sha256 : Text → Text) where
  keys-file_records : (d : Dict Text Text) → keys (file_records sha256 d) ≡ keys d
  unfolding file_records
  keys-file_records [] = refl
  keys-file_records ((k, v) ∷ d) = ap (λ (t : List Text). k ∷ t) (keys-file_records d)

  check_record_self :
      (rel content : Text)
      → check_record sha256 rel content (some (entry (some (length content)) (sha256 content)))
        ≡ ok tt
  unfolding check_record hmac_compare_digest
  check_record_self rel content = ground arith

  -- Each file of `d` is found in `expected` with its own record.
  abbrev HasRecords : Dict Text Text → Dict Text FileRecord → Type 0
  HasRecords [] expected = Unit
  HasRecords ((rel, content) ∷ d) expected =
      (lookup rel expected ≡ some (entry (some (length content)) (sha256 content)))
      × HasRecords d expected

  HasRecords-cons :
      (k v : Text) (d : Dict Text Text) (expected : Dict Text FileRecord)
      → lookup k d ≡ none
      → HasRecords d expected
      → HasRecords d ((k, entry (some (length v)) (sha256 v)) ∷ expected)
  HasRecords-cons k v [] expected n h = tt
  HasRecords-cons k v ((j, w) ∷ d) expected n h = (
    unfold lookup in ground (arith, n, h.0),
    HasRecords-cons k v d expected (unfold lookup in ground (arith, n)) h.1,
  )

  HasRecords-self : (d : Dict Text Text) → NodupKeys d → HasRecords d (file_records sha256 d)
  unfolding file_records
  HasRecords-self [] n = tt
  HasRecords-self ((k, v) ∷ d) (fresh, n) = (
    (unfold lookup in ground arith),
    HasRecords-cons k v d (file_records sha256 d) fresh (HasRecords-self d n),
  )

  check_files-HasRecords :
      (d : Dict Text Text) (expected : Dict Text FileRecord)
      → HasRecords d expected
      → check_files sha256 d expected ≡ ok tt
  unfolding check_files
  check_files-HasRecords [] expected h = refl
  check_files-HasRecords ((k, v) ∷ d) expected h =
      rw (h.0, check_record_self k v) (check_files-HasRecords d expected h.1)

  -- For files at distinct paths, a manifest that has just been written verifies, and gives the digest that the writer returned.
  pub verify-write_manifest :
      (t : Tree)
      → NodupKeys t.files
      → verify_manifest sha256 (write_manifest sha256 t).1 ≡ ok (write_manifest sha256 t).0
  unfolding verify_manifest verify_readable write_manifest tree_digest hmac_compare_digest
  verify-write_manifest t n = ground (
    arith,
    keys-file_records t.files,
    is_subset_self (keys t.files),
    check_files-HasRecords t.files (file_records sha256 t.files) (HasRecords-self t.files n),
  )

  -- What a record says of the content of its file.
  abbrev pub Fits : Text → Option FileRecord → Type 0
  Fits content (some (entry (some n) sha)) =
      (n ≡ length content) × (ascii sha ≡ ascii (sha256 content))
  Fits content _ = ⊥

  pub check_record-Fits :
      (rel content : Text) (r : Option FileRecord)
      → check_record sha256 rel content r ≡ ok tt
      → Fits content r
  unfolding check_record hmac_compare_digest
  check_record-Fits rel content none h = cc h
  check_record-Fits rel content (some no_object) h = cc h
  check_record-Fits rel content (some bad_size) h = cc h
  check_record-Fits rel content (some (entry none sha)) h = cc h
  check_record-Fits rel content (some (entry (some n) sha)) h =
      (ground (arith, h), ground (arith, h))
