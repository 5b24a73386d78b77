-- ===== src/Storage/Latest/Laws.antt =====
-- `latest_release` of src/titanbox/storage.py names only releases whose marker is accepted.
use vpsssssskjwjw.Prelude.{
  ℕ, zero, suc, min, ◌+◌, ◌*◌, ◌≡◌, refl, Bool, Option, none, some, List, [], ◌∷◌, Text, text_eq,
  ◌==◌, take, Bool-cases, inl, inr,
}
use vpsssssskjwjw.Prelude.Result.{Result, ok, err, ◌>>◌, guard, Result-cases}
use vpsssssskjwjw.Storage.{
  Payload, Json, Fault, storage_error, integrity_error, other_error, Objects, StorageLibrary,
  Config, safe_project, row_lt, insert_row, sort_rows, names_of, marker_names, latest_key, call,
  folder, clamp_limit, is_text, object, null, other_json, safe_release,
}
use vpsssssskjwjw.Storage.Markers.{
  verify_signature, get_json, active_marker, add_at, add_row, marker_rows, list_releases,
}
use vpsssssskjwjw.Storage.Latest.{
  text_of, check_pointer, follow, rewrite, heal, after_list, newest, after_follow, after_pointer,
  after_project, latest_release,
}

module _ (L : StorageLibrary) (c : Config) (up : Text → Bool) where
  -- The marker of the release is accepted.
  abbrev pub IsActive : Text → Text → Objects → Type 0
  IsActive project release s =
      (marker : Payload) × (active_marker L c up project release s ≡ ok marker)

  abbrev AreActive : Text → Objects → List (ℕ × Text) → Type 0
  AreActive project s [] = Unit
  AreActive project s ((at, name) ∷ rows) = IsActive project name s × AreActive project s rows

  insert_row-AreActive :
      (project : Text) (s : Objects) (r : ℕ × Text) (rows : List (ℕ × Text))
      → IsActive project r.1 s
      → AreActive project s rows
      → AreActive project s (insert_row r rows)
  unfolding insert_row
  insert_row-AreActive project s r [] h a = (h, tt)
  insert_row-AreActive project s r (x ∷ xs) h (b, a) = elim (Bool-cases (row_lt r x)) [
    | inl e ↦ simp (e) (b, insert_row-AreActive project s r xs h a)
    | inr e ↦ simp (e) (h, (b, a))
  ]

  sort_rows-AreActive :
      (project : Text) (s : Objects) (rows : List (ℕ × Text))
      → AreActive project s rows
      → AreActive project s (sort_rows rows)
  unfolding sort_rows
  sort_rows-AreActive project s [] a = tt
  sort_rows-AreActive project s (r ∷ rows) (h, a) =
      insert_row-AreActive project s r (sort_rows rows) h (sort_rows-AreActive project s rows a)

  -- The rows of a listing that succeeds are active.
  abbrev Sound : Text → Objects → Result Fault (List (ℕ × Text)) → Type 0
  Sound project s (ok rows) = AreActive project s rows
  Sound project s (err e) = Unit

  add_at-Sound :
      (project name : Text) (s : Objects) (at : Option ℕ) (rows : Result Fault (List (ℕ × Text)))
      → IsActive project name s
      → Sound project s rows
      → Sound project s (add_at L c up name at rows)
  add_at-Sound project name s none rows h a = a
  add_at-Sound project name s (some at) (ok rows) h a = (h, a)
  add_at-Sound project name s (some at) (err e) h a = tt

  add_row-Sound :
      (project name : Text) (s : Objects) (m : Result Fault Payload)
      (rows : Result Fault (List (ℕ × Text)))
      → active_marker L c up project name s ≡ m
      → Sound project s rows
      → Sound project s (add_row L c up name m rows)
  add_row-Sound project name s (err storage_error) rows h a = a
  add_row-Sound project name s (err integrity_error) rows h a = tt
  add_row-Sound project name s (err other_error) rows h a = a
  add_row-Sound project name s (ok marker) rows h a =
      add_at-Sound project name s marker.activated_at rows (marker, h) a

  marker_rows-Sound :
      (project : Text) (s : Objects) (names : List Text)
      → Sound project s (marker_rows L c up project s names)
  unfolding marker_rows
  marker_rows-Sound project s [] = tt
  marker_rows-Sound project s (name ∷ names) =
      add_row-Sound project name s (active_marker L c up project name s)
        (marker_rows L c up project s names) refl (marker_rows-Sound project s names)

  abbrev NamesActive : Text → Objects → List Text → Type 0
  NamesActive project s [] = Unit
  NamesActive project s (name ∷ names) = IsActive project name s × NamesActive project s names

  names_of-NamesActive :
      (project : Text) (s : Objects) (rows : List (ℕ × Text))
      → AreActive project s rows
      → NamesActive project s (names_of rows)
  names_of-NamesActive project s [] a = tt
  names_of-NamesActive project s (r ∷ rows) (h, a) = (h, names_of-NamesActive project s rows a)

  take-NamesActive :
      (project : Text) (s : Objects) (n : ℕ) (names : List Text)
      → NamesActive project s names
      → NamesActive project s (take n names)
  take-NamesActive project s zero names a = tt
  take-NamesActive project s (suc n) [] a = tt
  take-NamesActive project s (suc n) (x ∷ names) (h, a) = (h, take-NamesActive project s n names a)

  abbrev SoundNames : Text → Objects → Result Fault (List Text) → Type 0
  SoundNames project s (ok names) = NamesActive project s names
  SoundNames project s (err e) = Unit

  list_releases-SoundNames :
      (project : Text) (limit : ℕ) (s : Objects)
      → SoundNames project s (list_releases L c up project limit s)
  unfolding list_releases
  list_releases-SoundNames project limit s =
      let names =
        marker_names project
          (L.list_keys (folder project) (min (clamp_limit limit * 5 + 50) 2500) s) in
      elim (Bool-cases c.enabled) [
        | inr e ↦ simp (e) tt
        | inl e ↦ elim (Result-cases (safe_project project)) [
          | inr (f, g) ↦ simp (e, g) tt
          | inl (u, g) ↦ elim (Result-cases (call up (folder project))) [
            | inr (f, k) ↦ simp (e, g, k) tt
            | inl (v, k) ↦ elim (Result-cases (marker_rows L c up project s names)) [
              | inr (f, m) ↦ simp (e, g, k, m) tt
              | inl (rows, m) ↦
                  let a : Sound project s (ok rows) =
                    simp (m) at (marker_rows-Sound project s names) in
                  simp (e, g, k, m)
                    (take-NamesActive project s (clamp_limit limit) (names_of (sort_rows rows)) (
                      names_of-NamesActive project s (sort_rows rows)
                        (sort_rows-AreActive project s rows a)))
            ]
          ]
        ]
      ]

  -- An answer that names a release names an active one.
  abbrev pub SoundAnswer : Text → Objects → Result Fault (Option Text) → Type 0
  SoundAnswer project s (ok (some release)) = IsActive project release s
  SoundAnswer project s _ = Unit

  rewrite-SoundAnswer :
      (project release : Text) (s : Objects) (m : Result Fault Payload)
      → IsActive project release s
      → SoundAnswer project s (rewrite L c up project release s m).0
  rewrite-SoundAnswer project release s (err storage_error) h = h
  rewrite-SoundAnswer project release s (err integrity_error) h = tt
  rewrite-SoundAnswer project release s (err other_error) h = h
  rewrite-SoundAnswer project release s (ok marker) h = h

  heal-SoundAnswer :
      (project release : Text) (s : Objects)
      → IsActive project release s
      → SoundAnswer project s (heal L c up project release s).0
  unfolding heal
  heal-SoundAnswer project release s h =
      rewrite-SoundAnswer project release s (active_marker L c up project release s) h

  after_list-SoundAnswer :
      (project : Text) (s : Objects) (r : Result Fault (List Text))
      → SoundNames project s r
      → SoundAnswer project s (after_list L c up project s r).0
  after_list-SoundAnswer project s (err e) a = tt
  after_list-SoundAnswer project s (ok []) a = tt
  after_list-SoundAnswer project s (ok (release ∷ names)) (h, a) =
      heal-SoundAnswer project release s h

  check_pointer-SoundAnswer :
      (project release : Text) (s : Objects) (pointer : Payload) (m : Result Fault Payload)
      → active_marker L c up project release s ≡ m
      → SoundAnswer project s (check_pointer L c up pointer release m)
  check_pointer-SoundAnswer project release s pointer (err storage_error) h = tt
  check_pointer-SoundAnswer project release s pointer (err integrity_error) h = tt
  check_pointer-SoundAnswer project release s pointer (err other_error) h = tt
  check_pointer-SoundAnswer project release s pointer (ok marker) h =
      elim (Bool-cases (marker.sha256 == pointer.sha256)) [
        | inl e ↦ simp (e) (marker, h)
        | inr e ↦ simp (e) tt
      ]

  >>-SoundAnswer :
      (project : Text) (s : Objects) (m : Result Fault (Unit {0})) (k : Result Fault (Option Text))
      → SoundAnswer project s k
      → SoundAnswer project s (m >> k)
  >>-SoundAnswer project s (ok u) k h = h
  >>-SoundAnswer project s (err e) k h = tt

  follow-SoundAnswer :
      (project : Text) (json : Json) (s : Objects)
      → SoundAnswer project s (follow L c up project json s)
  unfolding follow
  follow-SoundAnswer project null s = tt
  follow-SoundAnswer project other_json s = tt
  follow-SoundAnswer project (object p) s =
      let m = active_marker L c up project (text_of p.release) s in
      let k₃ = check_pointer L c up p (text_of p.release) m in
      let k₂ = safe_release (text_of p.release) >> k₃ in
      let k₁ = verify_signature L c up p >> k₂ in
      >>-SoundAnswer project s (guard (is_text p.project project) integrity_error) k₁ (
        >>-SoundAnswer project s (verify_signature L c up p) k₂ (
          >>-SoundAnswer project s (safe_release (text_of p.release)) k₃
            (check_pointer-SoundAnswer project (text_of p.release) s p m refl)))

  newest-SoundAnswer :
      (project : Text) (s : Objects) → SoundAnswer project s (newest L c up project s).0
  unfolding newest
  newest-SoundAnswer project s =
      after_list-SoundAnswer project s (list_releases L c up project 1 s)
        (list_releases-SoundNames project 1 s)

  after_follow-SoundAnswer :
      (project : Text) (s : Objects) (m : Result Fault (Option Text))
      → SoundAnswer project s m
      → SoundAnswer project s (after_follow L c up project s m).0
  after_follow-SoundAnswer project s (err e) h = tt
  after_follow-SoundAnswer project s (ok none) h = newest-SoundAnswer project s
  after_follow-SoundAnswer project s (ok (some r)) h = h

  after_pointer-SoundAnswer :
      (project : Text) (s : Objects) (m : Result Fault Json)
      → SoundAnswer project s (after_pointer L c up project s m).0
  after_pointer-SoundAnswer project s (err e) = newest-SoundAnswer project s
  after_pointer-SoundAnswer project s (ok null) = newest-SoundAnswer project s
  after_pointer-SoundAnswer project s (ok other_json) =
      after_follow-SoundAnswer project s (follow L c up project other_json s)
        (follow-SoundAnswer project other_json s)
  after_pointer-SoundAnswer project s (ok (object p)) =
      after_follow-SoundAnswer project s (follow L c up project (object p) s)
        (follow-SoundAnswer project (object p) s)

  after_project-SoundAnswer :
      (project : Text) (s : Objects) (m : Result Fault (Unit {0}))
      → SoundAnswer project s (after_project L c up project s m).0
  after_project-SoundAnswer project s (err e) = tt
  after_project-SoundAnswer project s (ok u) =
      after_pointer-SoundAnswer project s (get_json L c up (latest_key project) s)

  -- Whenever `latest_release` names a release, whether by the pointer or by the newest marker, the
  -- marker of that release can be read in the store as it was and is accepted.
  pub latest_release-SoundAnswer :
      (project : Text) (s : Objects) → SoundAnswer project s (latest_release L c up project s).0
  unfolding latest_release
  latest_release-SoundAnswer project s = elim (Bool-cases c.enabled) [
    | inl e ↦ simp (e) (after_project-SoundAnswer project s (safe_project project))
    | inr e ↦ simp (e) tt
  ]
