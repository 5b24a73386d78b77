-- ===== src/Prelude/Texts.antt =====
-- Python's `part in text` on texts.
use mathlib.Core.Path.{◌≡◌, refl}
use mathlib.Core.Logic.{inl, inr}
use mathlib.Core.Bool.{Bool, true, false, ◌&&◌, ◌||◌}
use mathlib.Core.List.{[], ◌∷◌, ◌++◌}
use native.Mathlib.Omega.{arith}
use vpsssssskjwjw.Prelude.Tests.{Bool-cases}
use vpsssssskjwjw.Prelude.Equality.{Text, text_eq, nat_eq, ◌==◌}

abbrev pub is_prefix : Text → Text → Bool
is_prefix [] t = true
is_prefix (c ∷ s) [] = false
is_prefix (c ∷ s) (d ∷ t) = (c == d) && is_prefix s t

-- `part in text`
unfoldable pub has_infix : Text → Text → Bool
has_infix part [] = is_prefix part []
has_infix part (c ∷ text) = is_prefix part (c ∷ text) || has_infix part text

is_prefix_sound : (s t : Text) → is_prefix s t ≡ true → (after : Text) × (t ≡ s ++ after)
is_prefix_sound [] t h = (t, refl)
is_prefix_sound (c ∷ s) [] h = absurd (cc h)
is_prefix_sound (c ∷ s) (d ∷ t) h =
    let (after, e) = is_prefix_sound s t (ground (arith, h)) in (after, ground (arith, h, e))

pub has_infix_sound :
    (part text : Text)
    → has_infix part text ≡ true
    → (before : Text) × (after : Text) × (text ≡ before ++ (part ++ after))
unfolding has_infix
has_infix_sound part [] h = let (after, e) = is_prefix_sound part [] h in ([], after, e)
has_infix_sound part (c ∷ text) h = elim (Bool-cases (is_prefix part (c ∷ text))) [
  | inl p ↦ let (after, e) = is_prefix_sound part (c ∷ text) p in ([], after, e)
  | inr n ↦
      let (before, after, e) = has_infix_sound part text (ground (arith, h, n)) in
      (c ∷ before, after, cc e)
]
