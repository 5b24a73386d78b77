-- ===== src/Admin/Action.antt =====
-- A method of the plugin: it reads and changes the plugin's state, and what it has changed before it
-- raises stays changed.
use vpsssssskjwjw.Prelude.{◌≡◌, Bool, true, false, if◌then◌else◌}
use vpsssssskjwjw.Prelude.Result.{Result, ok, err}

abbrev pub Action : Type 0 → Type 0 → Type 0 → Type 0
Action Exception State Value = State → Result Exception Value × State

module _ {X S : Type 0} where
  abbrev pub return : {A : Type 0} → A → Action X S A
  return a s = (ok a, s)

  abbrev pub throw : {A : Type 0} → X → Action X S A
  throw x s = (err x, s)

  -- A computation that has no state.
  abbrev pub from_result : {A : Type 0} → Result X A → Action X S A
  from_result r s = (r, s)

  abbrev pub modify : (S → S) → Action X S (Unit {0})
  modify f s = (ok tt, f s)

  abbrev pub resume : {A B : Type 0} → (A → Action X S B) → Result X A × S → Result X B × S
  resume f (ok a, s) = f a s
  resume f (err x, s) = (err x, s)

  infixl 5 ◌>>=◌ ◌>>◌
  unfoldable pub ◌>>=◌ : {A B : Type 0} → Action X S A → (A → Action X S B) → Action X S B
  ◌>>=◌ m f s = resume f (m s)

  abbrev pub ◌>>◌ : {A B : Type 0} → Action X S A → Action X S B → Action X S B
  m >> n = m >>= λ a. n

  -- The action keeps a property of the state, whether it returns or raises.
  pub record Keeps {A : Type 0} (P : S → Type 0) (m : Action X S A) : Type 0 where
    pub keep : (s : S) → P s → P (m s).1

module _ {X S : Type 0} {P : S → Type 0} where
  pub return-Keeps : {A : Type 0} (a : A) → Keeps P (return {X = X} {S = S} a)
  return-Keeps a = record { keep = λ s p. p }

  pub throw-Keeps : {A : Type 0} (x : X) → Keeps P (throw {X = X} {S = S} {A = A} x)
  throw-Keeps x = record { keep = λ s p. p }

  pub from_result-Keeps : {A : Type 0} (r : Result X A) → Keeps P (from_result {X = X} {S = S} r)
  from_result-Keeps r = record { keep = λ s p. p }

  resume-keep :
      {A B : Type 0} (f : A → Action X S B) (o : Result X A × S)
      → ((a : A) → Keeps P (f a))
      → P o.1
      → P (resume f o).1
  resume-keep f (ok a, s) k p = (k a).keep s p
  resume-keep f (err x, s) k p = p

  pub >>=-Keeps :
      {A B : Type 0} (m : Action X S A) (f : A → Action X S B)
      → Keeps P m
      → ((a : A) → Keeps P (f a))
      → Keeps P (m >>= f)
  unfolding ◌>>=◌
  >>=-Keeps m f k l = record { keep = λ s p. resume-keep f (m s) l (k.keep s p) }

  -- Nothing after an action that raises runs.
  pub raising-Keeps :
      {A B : Type 0} (x : X) (m : Action X S A) (f : A → Action X S B)
      → ((s : S) → P s → m s ≡ (err x, s))
      → Keeps P (m >>= f)
  unfolding ◌>>=◌
  raising-Keeps x m f h = record { keep = λ s p. rw (h s p) p }

  pub if-Keeps :
      {A : Type 0} (b : Bool) (m n : Action X S A)
      → Keeps P m
      → Keeps P n
      → Keeps P (if b then m else n)
  if-Keeps true m n k l = k
  if-Keeps false m n k l = l

pub ruleset keep_rules = (return-Keeps, throw-Keeps, from_result-Keeps, >>=-Keeps, if-Keeps)
