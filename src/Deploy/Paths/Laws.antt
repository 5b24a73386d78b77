-- ===== src/Deploy/Paths/Laws.antt =====
-- The paths that src/titanbox/deploy.py accepts stay below the directory that they are joined to.
use vpsssssskjwjw.Prelude.{
  ℕ, ◌≡◌, refl, Bool, true, false, ◌||◌, List, [], ◌∷◌, Text, text_eq, nat_eq, ◌==◌, contains, All,
  arith, if◌then◌else◌, Bool-cases, inl, inr,
}
use vpsssssskjwjw.Prelude.Result.{ok}
use vpsssssskjwjw.Deploy.Paths.{
  UnicodeLibrary, strip, to_slashes, split_slash, cons_first, components, parts, dot, dot_dot,
  check_parts, validate_relative_path, zip_member_path,
}

-- Where a path leads from a directory, its innermost component first, as the system walks it.
abbrev pub walk : List Text → List Text → List Text
walk dir [] = dir
walk [] (p ∷ ps) = walk (if p == [] || (p == dot || dot_dot == p) then [] else p ∷ []) ps
walk (d ∷ dir) (p ∷ ps) =
    walk (if p == [] || p == dot then d ∷ dir else if dot_dot == p then dir else p ∷ d ∷ dir) ps

-- The components pushed below a directory.
abbrev pub below : List Text → List Text → List Text
below dir [] = dir
below dir (p ∷ ps) = below (p ∷ dir) ps

abbrev pub IsPlain : Text → Type 0
IsPlain p =
    ((p == []) ≡ false) × ((p == dot) ≡ false) × ((dot_dot == p) ≡ false) × (contains p 47 ≡ false)

walk-below : (dir ps : List Text) → All IsPlain ps → walk dir ps ≡ below dir ps
walk-below dir [] h = refl
walk-below [] (p ∷ ps) ((a, b, c, d), h) = simp (a, b, c) (walk-below (p ∷ []) ps h)
walk-below (e ∷ dir) (p ∷ ps) ((a, b, c, d), h) = simp (a, b, c) (walk-below (p ∷ e ∷ dir) ps h)

NoSlash-cons_first :
    (c : ℕ) (ps : List Text)
    → (c == 47) ≡ false
    → All (λ p. contains p 47 ≡ false) ps
    → All (λ p. contains p 47 ≡ false) (cons_first c ps)
NoSlash-cons_first c [] n h = (ground (arith, n), tt)
NoSlash-cons_first c (p ∷ ps) n (a, h) = (ground (arith, n, a), h)

split_slash-NoSlash : (s : Text) → All (λ p. contains p 47 ≡ false) (split_slash s)
unfolding split_slash
split_slash-NoSlash [] = (refl, tt)
split_slash-NoSlash (c ∷ s) = elim (Bool-cases (c == 47)) [
  | inl e ↦ simp (e) (refl, split_slash-NoSlash s)
  | inr e ↦ simp (e) (NoSlash-cons_first c (split_slash s) e (split_slash-NoSlash s))
]

or-false : (a b : Bool) → (a || b) ≡ false → (a ≡ false) × (b ≡ false)
or-false true b h = cc
or-false false b h = (refl, h)

components-IsPlain :
    (ps : List Text)
    → All (λ p. contains p 47 ≡ false) ps
    → contains (components ps) dot_dot ≡ false
    → All IsPlain (components ps)
unfolding components
components-IsPlain [] h n = tt
components-IsPlain (p ∷ ps) (a, h) n = elim (Bool-cases (p == [] || p == dot)) [
  | inl e ↦ simp (e) (components-IsPlain ps h (simp (e) at n))
  | inr e ↦
      let m : contains (p ∷ components ps) dot_dot ≡ false = simp (e) at n in
      simp (e) (
        (
          (or-false (p == []) (p == dot) e).0,
          (or-false (p == []) (p == dot) e).1,
          (or-false (dot_dot == p) (contains (components ps) dot_dot) m).0,
          a,
        ),
        components-IsPlain ps h (or-false (dot_dot == p) (contains (components ps) dot_dot) m).1,
      )
]

check_parts-ok :
    (value : Text) (ps : List Text)
    → check_parts value ≡ ok ps
    → (contains (parts value) dot_dot ≡ false) × (ps ≡ parts value)
unfolding check_parts
check_parts-ok value ps h = (ground (arith, h), ground (arith, h))

check_parts-IsPlain : (value : Text) (ps : List Text) → check_parts value ≡ ok ps → All IsPlain ps
unfolding parts
check_parts-IsPlain value ps h =
    let (n, e) = check_parts-ok value ps h in
    simp (e) (components-IsPlain (split_slash value) (split_slash-NoSlash value) n)

relative_path-check_parts :
    (U : UnicodeLibrary) (raw : Text) (ps : List Text)
    → validate_relative_path U raw ≡ ok ps
    → check_parts (to_slashes (strip U.is_space raw)) ≡ ok ps
unfolding validate_relative_path
relative_path-check_parts U raw ps h = ground (arith, h)

zip_member-check_parts :
    (U : UnicodeLibrary) (name : Text) (ps : List Text)
    → zip_member_path U name ≡ ok ps
    → check_parts (to_slashes (U.nfc name)) ≡ ok ps
unfolding zip_member_path
zip_member-check_parts U name ps h = ground (arith, h)

-- A target path that `validate_relative_path` accepts, joined to a directory, never leads out of it:
-- each of its components is a name, so that it leads to what they name below the directory, or to
-- the directory itself where there is no component.
pub relative_path-below :
    (U : UnicodeLibrary) (raw : Text) (ps dir : List Text)
    → validate_relative_path U raw ≡ ok ps
    → All IsPlain ps × (walk dir ps ≡ below dir ps)
relative_path-below U raw ps dir h =
    let plain =
      check_parts-IsPlain (to_slashes (strip U.is_space raw)) ps
        (relative_path-check_parts U raw ps h) in
    (plain, walk-below dir ps plain)

pub zip_member-below :
    (U : UnicodeLibrary) (name : Text) (ps dir : List Text)
    → zip_member_path U name ≡ ok ps
    → All IsPlain ps × (walk dir ps ≡ below dir ps)
zip_member-below U name ps dir h =
    let plain =
      check_parts-IsPlain (to_slashes (U.nfc name)) ps (zip_member-check_parts U name ps h) in
    (plain, walk-below dir ps plain)
