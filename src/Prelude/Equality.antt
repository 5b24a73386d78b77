-- ===== src/Prelude/Equality.antt =====
-- Python's `==` and `in`, for every type whose equality can be decided, and texts.
use Prim.Native.Nat.{ℕ}
use Prim.Native.Char.{code}
use Prim.Native.String.{String}
use mathlib.Core.Path.{◌≡◌, refl, ap₂}
use mathlib.Core.Logic.{ite}
use mathlib.Core.Bool.{Bool, true, false, ◌||◌}
use mathlib.Core.List.{List, [], ◌∷◌}
use native.Mathlib.Decide.{ℕ_discrete}

pub record Eq {ℓ} (A : Type ℓ) : Type ℓ where
  pub dec : Discrete A

module _ {ℓ} {A : Type ℓ} ⦃e : Eq A⦄ where
  infix 50 ◌==◌
  abbrev pub ◌==◌ : A → A → Bool
  a == b = ite (e.dec a b) true false

  abbrev pub contains : List A → A → Bool
  contains [] a = false
  contains (x ∷ xs) a = a == x || contains xs a

instance abbrev pub nat_eq : Eq ℕ
nat_eq = record { dec = ℕ_discrete }

-- A text is the list of its code points.
abbrev pub Text : Type 0
Text = List ℕ

abbrev pub codes : String → Text
codes String.[] = []
codes (String.◌∷◌ c s) = code c ∷ codes s

pub cons_ne_head : (a b : ℕ) (s t : Text) → ¬ (a ≡ b) → ¬ (◌≡◌ {A = Text} (a ∷ s) (b ∷ t))
cons_ne_head a b s t h p = h (cc p)

pub cons_ne_tail : (a b : ℕ) (s t : Text) → ¬ (s ≡ t) → ¬ (◌≡◌ {A = Text} (a ∷ s) (b ∷ t))
cons_ne_tail a b s t h p = h (cc p)

unfoldable pub text_dec : Discrete Text
unfolding ℕ_discrete
text_dec [] [] = yes refl
text_dec [] (b ∷ t) = no (λ p. cc p)
text_dec (a ∷ s) [] = no (λ p. cc p)
text_dec (a ∷ s) (b ∷ t) = elim (ℕ_discrete a b) [
  | no h ↦ no (cons_ne_head a b s t h)
  | yes p ↦ elim (text_dec s t) [
    | no h ↦ no (cons_ne_tail a b s t h)
    | yes q ↦ yes (ap₂ (λ (x : ℕ) (y : Text). x ∷ y) p q)
  ]
]

instance abbrev pub text_eq : Eq Text
text_eq = record { dec = text_dec }
