-- ===== src/Audit/Chain.antt =====
-- Appending keeps the file verifiable, also across failed writes, rotations and restarts.
use mathlib.Core.List.{reverse-append}
use vpsssssskjwjw.Prelude.{
  ℕ, ◌≡◌, refl, ap, sym, ◌∙◌, ◌⊎◌, Bool, true, false, Option, none, some, List, [], ◌∷◌, ◌++◌, Text,
  text_eq, nat_eq, length, take, reverse, arith, inl, inr,
}
use vpsssssskjwjw.Audit.{
  AuditLibrary, AuditLog, IsLawful, Loaded, object, malformed, plain, listed, Rotation, answer,
  lines_of, no_mac, newest_mac, last_mac, rotate_if_needed, entry, write, append, verify_lines,
  verify,
}

module _ (L : AuditLibrary) where
  -- The MAC of the last line, or `previous` if there is none: what `verify_lines` carries along.
  unfoldable pub final_mac : Text → List Text → Text
  final_mac previous [] = previous
  final_mac previous (line ∷ lines) = elim (L.loads line) [
    | object (some m) f ↦ final_mac m lines
    | _ ↦ final_mac previous lines
  ]

  -- The file verifies, and the MAC in memory is that of its last line.
  pub record IsChained (a : AuditLog) : Type 0 where
    pub verified : verify L a ≡ answer true
    pub current : a.previous_mac ≡ final_mac no_mac (lines_of a.file)

  -- What the head of a file that verifies is.
  pub record IsLink (previous : Text) (line : Text) (m : Text) (f : L.Fields) : Type 0 where
    pub loads : L.loads line ≡ object (some m) f
    pub prev : L.get_prev_mac f ≡ some previous
    pub mac : m ≡ L.mac (L.canonical f)

  pub verify_lines-cons :
      (previous line : Text) (lines : List Text)
      → verify_lines L previous (line ∷ lines) ≡ answer true
      → (m : Text) × (f : L.Fields) × IsLink previous line m f
        × (verify_lines L m lines ≡ answer true)
  unfolding verify_lines
  verify_lines-cons previous line lines h = go (L.loads line) refl
    where
      go :
          (v : Loaded L.Fields)
          → L.loads line ≡ v
          → (m : Text) × (f : L.Fields) × IsLink previous line m f
            × (verify_lines L m lines ≡ answer true)
      go malformed e = absurd (ground (arith, h, e))
      go plain e = absurd (ground (arith, h, e))
      go listed e = absurd (ground (arith, h, e))
      go (object none f) e = absurd (ground (arith, h, e))
      go (object (some m) f) e = (
        m,
        f,
        record { loads = e; prev = ground (arith, h, e); mac = ground (arith, h, e) },
        ground (arith, h, e),
      )

  pub verify_lines_link :
      (previous line m : Text) (f : L.Fields) (lines : List Text)
      → IsLink previous line m f
      → (verify_lines L previous (line ∷ lines) ≡ verify_lines L m lines)
        × (final_mac previous (line ∷ lines) ≡ final_mac m lines)
  unfolding verify_lines final_mac
  verify_lines_link previous line m f lines k = ground (arith, k.loads, k.prev, k.mac)

  verify_lines-snoc :
      (law : IsLawful L) (f : L.Fields) (previous : Text) (lines : List Text)
      → verify_lines L previous lines ≡ answer true
      → L.get_prev_mac f ≡ some (final_mac previous lines)
      → (verify_lines L previous (lines ++ (L.dumps f (L.mac (L.canonical f)) ∷ [])) ≡ answer true)
        × (final_mac previous (lines ++ (L.dumps f (L.mac (L.canonical f)) ∷ []))
            ≡ L.mac (L.canonical f))
  verify_lines-snoc law f previous [] h p =
      unfold verify_lines final_mac in
      ground (arith, h, p, law.loads-dumps f (L.mac (L.canonical f)))
  verify_lines-snoc law f previous (line ∷ lines) h p =
      let (m, g, link, rest) = verify_lines-cons previous line lines h in
      let here = verify_lines_link previous line m g lines link in
      let there =
        verify_lines_link previous line m g (lines ++ (L.dumps f (L.mac (L.canonical f)) ∷ []))
          link in
      let (v, last) = verify_lines-snoc law f m lines rest (p ∙ ap some here.1) in
      (there.0 ∙ v, there.1 ∙ last)

  rotate-IsChained :
      (o : Rotation) (a : AuditLog) → IsChained a → IsChained (rotate_if_needed L o a)
  rotate-IsChained o a v = record {
    verified = unfold rotate_if_needed verify verify_lines in ground (arith, v.verified);
    current = unfold rotate_if_needed final_mac in ground (arith, v.current);
  }

  write-IsChained :
      (law : IsLawful L) (written : Bool) (f : L.Fields) (a : AuditLog)
      → L.get_prev_mac f ≡ some a.previous_mac
      → IsChained a
      → IsChained (write L written f a)
  unfolding write verify
  write-IsChained law false f a p v = v
  write-IsChained law true f a p v =
      let (good, last) =
        verify_lines-snoc law f no_mac (lines_of a.file) v.verified (p ∙ ap some v.current) in
      record { verified = good; current = sym last }

  -- An append keeps the chain, whatever it records, and whether or not the file is rotated and the
  -- rotation and the write succeed.
  pub append-IsChained :
      (law : IsLawful L) (o : Rotation) (written : Bool) (action : Text) (actor_id : Option ℕ)
      (result : Text) (project : Option Text) (detail : L.Detail) (now : ℕ) (a : AuditLog)
      → IsChained a
      → IsChained (append L o written action actor_id result project detail now a)
  unfolding append entry
  append-IsChained law o written action actor_id result project detail now a v =
      write-IsChained law written _ (rotate_if_needed L o a) (law.prev_mac-fields _)
        (rotate-IsChained o a v)

  newest_mac-head :
      (law : IsLawful L) (line m : Text) (f : L.Fields) (lines : List Text)
      → L.loads line ≡ object (some m) f
      → m ≡ L.mac (L.canonical f)
      → newest_mac L (line ∷ lines) ≡ some m
  unfolding newest_mac
  newest_mac-head law line m f lines e k =
      ground (arith, e, ap (λ (t : Text). length t) k ∙ law.length-mac (L.canonical f))

  -- A file that verifies is empty, or its last line carries its last MAC.
  last_line :
      (previous : Text) (lines : List Text)
      → verify_lines L previous lines ≡ answer true
      → (lines ≡ [])
        ⊎ ((front : List Text) × (line : Text) × (f : L.Fields) × (lines ≡ front ++ (line ∷ []))
            × (L.loads line ≡ object (some (final_mac previous lines)) f)
            × (final_mac previous lines ≡ L.mac (L.canonical f)))
  last_line previous [] h = inl refl
  last_line previous (line ∷ lines) h =
      let (m, f, link, rest) = verify_lines-cons previous line lines h in
      let last = (verify_lines_link previous line m f lines link).1 in
      elim (last_line m lines rest) [
        | inl e ↦
            let fm : final_mac previous (line ∷ lines) ≡ m =
              last ∙ ap (λ (t : List Text). final_mac m t) e ∙ (unfold final_mac in refl) in
            inr ([], line, f, ap (λ (t : List Text). line ∷ t) e, rw fm link.loads, fm ∙ link.mac)
        | inr (front, end, g, e, l, k) ↦
            inr (line ∷ front, end, g, ap (λ (t : List Text). line ∷ t) e, rw last l, last ∙ k)
      ]

  -- Opening the log again, on a file that it left chained, finds the MAC that was in memory.
  pub last_mac_reopened :
      (law : IsLawful L) (a : AuditLog) → IsChained a → last_mac L a.file ≡ some a.previous_mac
  unfolding last_mac verify
  last_mac_reopened law a v = elim (last_line no_mac (lines_of a.file) v.verified) [
    | inl e ↦ rw e (
        unfold newest_mac in
        ap some (
          sym (
            v.current ∙ ap (λ (t : List Text). final_mac no_mac t) e ∙ (unfold final_mac in refl))))
    | inr (front, end, f, e, l, k) ↦
        rw (e, reverse-append)
          (newest_mac-head law end _ f (take 19 (reverse front)) l k ∙ ap some (sym v.current))
  ]
