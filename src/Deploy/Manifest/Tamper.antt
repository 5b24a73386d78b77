-- ===== src/Deploy/Manifest/Tamper.antt =====
-- Two trees that verify against one manifest are the same tree.
use vpsssssskjwjw.Prelude.{
  ◌≡◌, refl, ap, sym, ◌∙◌, true, false, Option, none, some, List, [], ◌∷◌, Text, text_eq, ◌==◌,
  contains, arith, Bool-cases, Option-cases, inl, inr,
}
use vpsssssskjwjw.Prelude.Dict.{Dict, lookup}
use vpsssssskjwjw.Prelude.Result.{ok}
use vpsssssskjwjw.Deploy.Manifest.{
  FileRecord, entry, no_object, bad_size, Manifest, ManifestFile, missing, unreadable,
  not_an_object, readable, Tree, ascii, keys, is_subset, same_set, check_record, check_files,
  verify_readable, verify_manifest,
}
use vpsssssskjwjw.Deploy.Manifest.Laws.{Fits, check_record-Fits}

contains-is_subset :
    (k : Text) (xs ys : List Text)
    → is_subset xs ys ≡ true
    → contains xs k ≡ true
    → contains ys k ≡ true
unfolding is_subset
contains-is_subset k [] ys h c = absurd (cc c)
contains-is_subset k (x ∷ xs) ys h c = ground (arith, h, c, contains-is_subset k xs ys)

contains-keys {ℓ} :
    {V : Type ℓ} (k : Text) (d : Dict Text V) (v : V)
    → lookup k d ≡ some v
    → contains (keys d) k ≡ true
unfolding lookup
contains-keys k [] v h = absurd (cc h)
contains-keys k ((j, w) ∷ d) v h = ground (arith, h, contains-keys k d v)

absent-keys {ℓ} :
    {V : Type ℓ} (k : Text) (d : Dict Text V) → lookup k d ≡ none → contains (keys d) k ≡ false
unfolding lookup
absent-keys k [] h = refl
absent-keys k ((j, w) ∷ d) h = ground (arith, h, absent-keys k d)

module _ (sha256 : Text → Text) where
  check_files-cons :
      (rel content : Text) (d : Dict Text Text) (expected : Dict Text FileRecord)
      → check_files sha256 ((rel, content) ∷ d) expected ≡ ok tt
      → (check_record sha256 rel content (lookup rel expected) ≡ ok tt)
        × (check_files sha256 d expected ≡ ok tt)
  unfolding check_files
  check_files-cons rel content d expected h = ground (arith, h)

  check_files-Fits :
      (k v : Text) (d : Dict Text Text) (expected : Dict Text FileRecord)
      → check_files sha256 d expected ≡ ok tt
      → lookup k d ≡ some v
      → Fits sha256 v (lookup k expected)
  check_files-Fits k v [] expected h e = absurd (unfold lookup in cc e)
  check_files-Fits k v ((j, w) ∷ d) expected h e =
      let (here, rest) = check_files-cons j w d expected h in
      elim (Bool-cases (k == j)) [
        | inl same ↦
            let kj : k ≡ j = ground (arith, same) in
            let vw : w ≡ v = unfold lookup in ground (arith, same, e) in
            rw kj (rw vw at (check_record-Fits sha256 j w (lookup j expected) here))
        | inr other ↦
            check_files-Fits k v d expected rest (unfold lookup in ground (arith, other, e))
      ]

  -- What a tree has if it verifies.
  pub record IsVerified (t : Tree) (m : Manifest) (expected : Dict Text FileRecord) : Type 0 where
    pub manifest : t.manifest ≡ readable m
    pub files : m.files ≡ some expected
    pub same : same_set (keys t.files) (keys expected) ≡ true
    pub checked : check_files sha256 t.files expected ≡ ok tt

  pub verify_manifest-IsVerified :
      (t : Tree) (d : Text)
      → verify_manifest sha256 t ≡ ok d
      → (m : Manifest) × (expected : Dict Text FileRecord) × IsVerified t m expected
  unfolding verify_manifest verify_readable
  verify_manifest-IsVerified t d h = go t.manifest refl
    where
      go :
          (f : ManifestFile)
          → t.manifest ≡ f
          → (m : Manifest) × (expected : Dict Text FileRecord) × IsVerified t m expected
      go missing e = absurd (ground (arith, h, e))
      go unreadable e = absurd (ground (arith, h, e))
      go not_an_object e = absurd (ground (arith, h, e))
      go (readable m) e = elim (Option-cases m.files) [
        | inl n ↦ absurd (ground (arith, h, e, n))
        | inr (expected, f) ↦ (
          m,
          expected,
          record {
            manifest = e;
            files = f;
            same = ground (arith, h, e, f);
            checked = ground (arith, h, e, f);
          },
        )
      ]

  -- A path that one of two verified trees lacks, the other lacks too.
  absent_both :
      (t u : Tree) (m : Manifest) (expected : Dict Text FileRecord) (k : Text)
      → IsVerified t m expected
      → IsVerified u m expected
      → lookup k t.files ≡ none
      → lookup k u.files ≡ none
  absent_both t u m expected k v w e = elim (Option-cases (lookup k u.files)) [
    | inl n ↦ n
    | inr (c, f) ↦
        let here = contains-keys k u.files c f in
        let named =
          contains-is_subset k (keys u.files) (keys expected) (ground (arith, w.same)) here in
        let there =
          contains-is_subset k (keys expected) (keys t.files) (ground (arith, v.same)) named in
        absurd (cc (there, absent-keys k t.files e))
  ]

  Fits-same :
      ((a b : Text) → ascii (sha256 a) ≡ ascii (sha256 b) → a ≡ b)
      → (a b : Text) (r : Option FileRecord) → Fits sha256 a r
      → Fits sha256 b r
      → a ≡ b
  Fits-same inj a b none x y = absurd x
  Fits-same inj a b (some no_object) x y = absurd x
  Fits-same inj a b (some bad_size) x y = absurd x
  Fits-same inj a b (some (entry none sha)) x y = absurd x
  Fits-same inj a b (some (entry (some n) sha)) x y = inj a b (sym x.1 ∙ y.1)

  -- Two trees that verify against the same manifest have the same content, or none, at every path,
  -- if SHA-256 has no collision among them.
  pub verify_tamper :
      ((a b : Text) → ascii (sha256 a) ≡ ascii (sha256 b) → a ≡ b)
      → (t u : Tree) (d d' : Text) → t.manifest ≡ u.manifest
      → verify_manifest sha256 t ≡ ok d
      → verify_manifest sha256 u ≡ ok d'
      → (k : Text) → lookup k t.files ≡ lookup k u.files
  verify_tamper inj t u d d' same h h' k =
      let (m, expected, v) = verify_manifest-IsVerified t d h in
      let (m', expected', w') = verify_manifest-IsVerified u d' h' in
      let mm : m' ≡ m = cc (v.manifest, w'.manifest, same) in
      let ee : expected' ≡ expected = cc (v.files, w'.files, ap (λ (x : Manifest). x.files) mm) in
      let w : IsVerified u m expected = rw (mm, ee) at w' in
      elim (Option-cases (lookup k t.files)) [
        | inl n ↦ n ∙ sym (absent_both t u m expected k v w n)
        | inr (a, e) ↦ elim (Option-cases (lookup k u.files)) [
          | inl n ↦ absent_both u t m expected k w v n ∙ sym n
          | inr (b, f) ↦
              e
              ∙ ap some (
                  Fits-same inj a b (lookup k expected)
                    (check_files-Fits k a t.files expected v.checked e)
                    (check_files-Fits k b u.files expected w.checked f))
              ∙ sym f
        ]
      ]
