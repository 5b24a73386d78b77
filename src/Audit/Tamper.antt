-- ===== src/Audit/Tamper.antt =====
-- What a verified file rules out, and what it cannot rule out.
use vpsssssskjwjw.Prelude.{
  ◌≡◌, refl, ap, sym, ◌∙◌, true, some, List, [], ◌∷◌, ◌++◌, Text, length, arith,
}
use vpsssssskjwjw.Audit.{AuditLibrary, answer, verify_lines, object}
use vpsssssskjwjw.Audit.Chain.{final_mac, verify_lines-cons, verify_lines_link}

module _ (L : AuditLibrary) where
  -- The records of a file, without their MACs.
  unfoldable pub records : List Text → List L.Fields
  records [] = []
  records (line ∷ lines) =
      let rest = records lines in elim (L.loads line) [ object m f ↦ f ∷ rest | _ ↦ rest ]

  records_link :
      (line m : Text) (f : L.Fields) (lines : List Text)
      → L.loads line ≡ object (some m) f
      → records (line ∷ lines) ≡ f ∷ records lines
  unfolding records
  records_link line m f lines h = ground (arith, h)

  -- Two files that verify, have as many lines and the same last MAC hold the same records in the
  -- same order, if no two records have the same MAC. So a record cannot be changed, exchanged or
  -- replaced without a change of the last MAC.
  pub verify_tamper :
      ((f g : L.Fields) → L.mac (L.canonical f) ≡ L.mac (L.canonical g) → f ≡ g)
      → (p q : Text) (xs ys : List Text) → verify_lines L p xs ≡ answer true
      → verify_lines L q ys ≡ answer true
      → length xs ≡ length ys
      → final_mac L p xs ≡ final_mac L q ys
      → (p ≡ q) × (records xs ≡ records ys)
  verify_tamper inj p q [] [] h k n e = (unfold final_mac in e, refl)
  verify_tamper inj p q [] (y ∷ ys) h k n e = absurd (omega arith)
  verify_tamper inj p q (x ∷ xs) [] h k n e = absurd (omega arith)
  verify_tamper inj p q (x ∷ xs) (y ∷ ys) h k n e =
      let (m, f, here, rest) = verify_lines-cons L p x xs h in
      let (m', g, here', rest') = verify_lines-cons L q y ys k in
      let final : final_mac L m xs ≡ final_mac L m' ys =
        sym (verify_lines_link L p x m f xs here).1
        ∙ e
        ∙ (verify_lines_link L q y m' g ys here').1 in
      let (mm, same) = verify_tamper inj m m' xs ys rest rest' (omega arith) final in
      let fg = inj f g (sym here.mac ∙ mm ∙ here'.mac) in
      (
        cc (here.prev, here'.prev, ap L.get_prev_mac fg),
        records_link x m f xs here.loads
            ∙ ap (λ (t : List L.Fields). f ∷ t) same
            ∙ ap (λ (t : L.Fields). t ∷ records ys) fg
            ∙ sym (records_link y m' g ys here'.loads),
      )

  -- Any first part of a file that verifies verifies too: records cut off at the end are not noticed.
  pub verify_prefix :
      (p : Text) (xs ys : List Text)
      → verify_lines L p (xs ++ ys) ≡ answer true
      → verify_lines L p xs ≡ answer true
  verify_prefix p [] ys h = unfold verify_lines in refl
  verify_prefix p (x ∷ xs) ys h =
      let (m, f, here, rest) = verify_lines-cons L p x (xs ++ ys) h in
      (verify_lines_link L p x m f xs here).0 ∙ verify_prefix m xs ys rest
