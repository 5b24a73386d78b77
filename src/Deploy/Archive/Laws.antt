-- ===== src/Deploy/Archive/Laws.antt =====
-- What an archive that src/titanbox/deploy.py unpacks leaves in the staging directory.
use vpsssssskjwjw.Prelude.{
  ℕ, ◌+◌, ◌≤◌, ◌≡◌, ◌∙◌, refl, ap, Bool, false, Option, none, some, List, [], ◌∷◌, ◌++◌, reverse,
  Text, text_eq, nat_eq, contains, length, length-append, All, arith, Bool-cases, inl, inr, ◌⊎◌,
}
use vpsssssskjwjw.Prelude.Result.{ok, Result-cases}
use vpsssssskjwjw.Deploy.Paths.{UnicodeLibrary, zip_member_path, join_slash}
use vpsssssskjwjw.Deploy.Paths.Laws.{IsPlain, zip_member-below}
use vpsssssskjwjw.Deploy.Archive.{
  Entry, Limits, Node, manifest_name, drop_slashes, check_member, check_members, read_blocks,
  bytes_of, stands, make_dirs, parent, is_taken, extract_member, extract_all, safe_extract_zip,
  ends_with_slash,
}

-- The paths of the files.
abbrev pub file_texts : List Node → List Text
file_texts [] = []
file_texts ((path, none) ∷ nodes) = file_texts nodes
file_texts ((path, some content) ∷ nodes) = join_slash path ∷ file_texts nodes

-- No text stands twice.
abbrev pub AreDistinct : List Text → Type 0
AreDistinct [] = Unit
AreDistinct (t ∷ ts) = (contains ts t ≡ false) × AreDistinct ts

-- The path is of names alone, and of one at least: it leads below the directory.
abbrev pub IsBelow : List Text → Type 0
IsBelow [] = ⊥
IsBelow (p ∷ ps) = All IsPlain (p ∷ ps)

-- The staging directory is within the limits, its files have distinct paths, none of them the
-- manifest's, and all that is in it is below it.
pub record IsContained (limits : Limits) (nodes : List Node) : Type 0 where
  pub bytes : bytes_of nodes ≤ limits.max_extracted_bytes
  pub count : length (file_texts nodes) ≤ limits.max_archive_files
  pub distinct : AreDistinct (file_texts nodes)
  pub below : All (λ (n : Node). IsBelow n.0) nodes
  pub no_manifest : contains (file_texts nodes) manifest_name ≡ false

read_blocks-bounds :
    (declared limit written total : ℕ) (bs : List Text) (content : Text) (sum : ℕ)
    → total ≤ limit
    → read_blocks declared limit written total bs ≡ ok (content, sum)
    → (sum ≡ total + length content) × (sum ≤ limit)
unfolding read_blocks
read_blocks-bounds declared limit written total [] content sum l h =
    (ground (arith, h), ground (arith, h))
read_blocks-bounds declared limit written total (b ∷ bs) content sum l h =
    elim (Result-cases (read_blocks declared limit (written + length b) (total + length b) bs)) [
      | inr (e, f) ↦ (ground (arith, h, f), ground (arith, h, f))
      | inl ((rest, n), f) ↦
          let ih =
            read_blocks-bounds declared limit (written + length b) (total + length b) bs rest n
              (ground (arith, h)) f in
          let e : content ≡ b ++ rest = ground (arith, h, f) in
          let m : sum ≡ n = ground (arith, h, f) in
          (omega (arith, ih, m, ap length e, length-append b rest), omega (arith, ih, m))
    ]

-- The paths of members pushed on those of the nodes.
abbrev pushed : List Text → List (Entry × List Text) → List Text
pushed seen [] = seen
pushed seen ((e, path) ∷ members) = pushed (join_slash path ∷ seen) members

AllPlain : List (Entry × List Text) → Type 0
AllPlain [] = Unit
AllPlain ((e, path) ∷ members) = All IsPlain path × AllPlain members

record IsClean (ts : List Text) : Type 0 where
  pub distinct : AreDistinct ts
  pub no_manifest : contains ts manifest_name ≡ false

check_member-IsClean :
    (U : UnicodeLibrary) (seen : List Text) (e : Entry) (path : List Text)
    → check_member U seen e ≡ ok path
    → IsClean seen
    → IsClean (join_slash path ∷ seen) × All IsPlain path
unfolding check_member
check_member-IsClean U seen e path h v =
    elim (Result-cases (zip_member_path U (reverse (drop_slashes (reverse e.filename))))) [
      | inr (x, f) ↦ absurd (ground (arith, h, f))
      | inl (p, f) ↦
          let o : p ≡ path = ground (arith, h, f) in
          let plain = (zip_member-below U (reverse (drop_slashes (reverse e.filename))) p [] f).0 in
          (
            record {
              distinct = (ground (arith, h, f), v.distinct);
              no_manifest = ground (arith, h, f, v.no_manifest);
            },
            simp (o) at plain,
          )
    ]

check_members-IsClean :
    (U : UnicodeLibrary) (seen : List Text) (es : List Entry) (members : List (Entry × List Text))
    → check_members U seen es ≡ ok members
    → IsClean seen
    → IsClean (pushed seen members) × AllPlain members × (length members ≡ length es)
unfolding check_members AllPlain
check_members-IsClean U seen [] members h v =
    let o : members ≡ [] = ground (arith, h) in simp (o) (v, tt, refl)
check_members-IsClean U seen (e ∷ es) members h v = elim (Result-cases (check_member U seen e)) [
  | inr (x, f) ↦ absurd (ground (arith, h, f))
  | inl (path, f) ↦ elim (Result-cases (check_members U (join_slash path ∷ seen) es)) [
    | inr (x, g) ↦ absurd (ground (arith, h, f, g))
    | inl (rest, g) ↦
        let (clean, plain) = check_member-IsClean U seen e path f v in
        let (a, b, n) = check_members-IsClean U (join_slash path ∷ seen) es rest g clean in
        let o : members ≡ (e, path) ∷ rest = ground (arith, h, f, g) in
        simp (o) (a, (plain, b), omega (arith, n))
  ]
]

-- The first list is the second with some texts left out.
abbrev IsPart : List Text → List Text → Type 0
IsPart [] ts = Unit
IsPart (x ∷ xs) [] = ⊥
IsPart (x ∷ xs) (t ∷ ts) = ((x ≡ t) × IsPart xs ts) ⊎ IsPart (x ∷ xs) ts

skip-IsPart : (xs : List Text) (t : Text) (ts : List Text) → IsPart xs ts → IsPart xs (t ∷ ts)
skip-IsPart [] t ts h = tt
skip-IsPart (x ∷ xs) t ts h = inr h

contains-IsPart :
    (xs ts : List Text) (t : Text) → IsPart xs ts → contains ts t ≡ false → contains xs t ≡ false
contains-IsPart [] ts t h n = refl
contains-IsPart (x ∷ xs) [] t h n = absurd h
contains-IsPart (x ∷ xs) (y ∷ ts) t (inl (e, h)) n = ground (arith, e, n, contains-IsPart xs ts t h)
contains-IsPart (x ∷ xs) (y ∷ ts) t (inr h) n = contains-IsPart (x ∷ xs) ts t h (ground (arith, n))

distinct-IsPart : (xs ts : List Text) → IsPart xs ts → AreDistinct ts → AreDistinct xs
distinct-IsPart [] ts h d = tt
distinct-IsPart (x ∷ xs) [] h d = absurd h
distinct-IsPart (x ∷ xs) (y ∷ ts) (inl (e, h)) (n, d) =
    (contains-IsPart xs ts x h (rw e n), distinct-IsPart xs ts h d)
distinct-IsPart (x ∷ xs) (y ∷ ts) (inr h) (n, d) = distinct-IsPart (x ∷ xs) ts h d

length-IsPart : (xs ts : List Text) → IsPart xs ts → length xs ≤ length ts
length-IsPart [] ts h = omega arith
length-IsPart (x ∷ xs) [] h = absurd h
length-IsPart (x ∷ xs) (y ∷ ts) (inl (e, h)) = omega (arith, length-IsPart xs ts h)
length-IsPart (x ∷ xs) (y ∷ ts) (inr h) = omega (arith, length-IsPart (x ∷ xs) ts h)

length-pushed :
    (seen : List Text) (members : List (Entry × List Text))
    → length (pushed seen members) ≡ length seen + length members
length-pushed seen [] = omega arith
length-pushed seen ((e, path) ∷ members) =
    omega (arith, length-pushed (join_slash path ∷ seen) members)

AreBelow : List Node → Type 0
AreBelow nodes = All (λ (n : Node). IsBelow n.0) nodes

below-append :
    (above : List Text) (p : Text)
    → All IsPlain above
    → IsPlain p
    → IsBelow (above ++ (p ∷ [])) × All IsPlain (above ++ (p ∷ []))
below-append [] p a h = ((h, tt), (h, tt))
below-append (q ∷ above) p (b, a) h = let r = (below-append above p a h).1 in ((b, r), (b, r))

-- Directories that are made hold no bytes, are no files, and lead below.
make_dirs-keeps :
    (above path : List Text) (nodes : List Node)
    → All IsPlain above
    → All IsPlain path
    → AreBelow nodes
    → (bytes_of (make_dirs above path nodes) ≡ bytes_of nodes)
      × (file_texts (make_dirs above path nodes) ≡ file_texts nodes)
      × AreBelow (make_dirs above path nodes)
unfolding make_dirs AreBelow
make_dirs-keeps above [] nodes a h b = (refl, refl, b)
make_dirs-keeps above (p ∷ ps) nodes a (k, h) b =
    let (n, m) = below-append above p a k in
    elim (Bool-cases (stands nodes (above ++ (p ∷ [])))) [
      | inl s ↦ simp (s) (make_dirs-keeps (above ++ (p ∷ [])) ps nodes m h b)
      | inr s ↦
          simp (s)
            (make_dirs-keeps (above ++ (p ∷ [])) ps ((above ++ (p ∷ []), none) ∷ nodes) m h (n, b))
    ]

parent-IsPlain : (path : List Text) → All IsPlain path → All IsPlain (parent path)
parent-IsPlain [] h = tt
parent-IsPlain (p ∷ []) h = tt
parent-IsPlain (p ∷ q ∷ ps) (a, h) = (a, parent-IsPlain (q ∷ ps) h)

not_taken-IsBelow :
    (nodes : List Node) (path : List Text)
    → is_taken nodes path ≡ false
    → All IsPlain path
    → IsBelow path
not_taken-IsBelow nodes [] t h = absurd (cc t)
not_taken-IsBelow nodes (p ∷ ps) t h = h

-- What holds of the nodes after some members, for the bytes so far and the paths so far.
record IsSound (limit total : ℕ) (nodes : List Node) (seen : List Text) : Type 0 where
  pub within : total ≤ limit
  pub counted : bytes_of nodes ≡ total
  pub part : IsPart (file_texts nodes) seen
  pub below : AreBelow nodes

module _ (can_write : List Node → List Text → Bool) where
  extract_member-IsSound :
      (limit total : ℕ) (nodes : List Node) (seen : List Text) (e : Entry) (path : List Text)
      (out : List Node) (sum : ℕ)
      → IsSound limit total nodes seen
      → All IsPlain path
      → extract_member can_write limit total nodes e path ≡ ok (out, sum)
      → IsSound limit sum out (join_slash path ∷ seen)
  unfolding extract_member AreBelow
  extract_member-IsSound limit total nodes seen e path out sum v plain h =
      elim (Bool-cases (ends_with_slash e.filename)) [
        | inl s ↦
            let (b, t, a) = make_dirs-keeps [] path nodes tt plain v.below in
            let o : make_dirs [] path nodes ≡ out = ground (arith, h, s) in
            let m : total ≡ sum = ground (arith, h, s) in
            simp (← o, ← m)
              (record {
                within = v.within;
                counted = b ∙ v.counted;
                part = simp (t) (skip-IsPart (file_texts nodes) (join_slash path) seen v.part);
                below = a;
              })
        | inr s ↦ elim (Result-cases (read_blocks e.file_size limit 0 total e.blocks)) [
          | inr (x, f) ↦ absurd (ground (arith, h, f, s))
          | inl ((content, n), f) ↦
              let (k, q) =
                read_blocks-bounds e.file_size limit 0 total e.blocks content n v.within f in
              let (b, t, a) =
                make_dirs-keeps [] (parent path) nodes tt (parent-IsPlain path plain) v.below in
              let o : (path, some content) ∷ make_dirs [] (parent path) nodes ≡ out =
                ground (arith, h, f, s) in
              let m : n ≡ sum = ground (arith, h, f, s) in
              let free : is_taken nodes path ≡ false = ground (arith, h, f, s) in
              simp (← o, ← m)
                (record {
                  within = q;
                  counted = omega (arith, b, v.counted, k);
                  part = inl (refl, simp (t) (v.part));
                  below = (not_taken-IsBelow nodes path free plain, a);
                })
        ]
      ]

  extract_all-IsSound :
      (limit total : ℕ) (nodes : List Node) (seen : List Text) (members : List (Entry × List Text))
      (out : List Node)
      → IsSound limit total nodes seen
      → AllPlain members
      → extract_all can_write limit total nodes members ≡ ok out
      → (sum : ℕ) × IsSound limit sum out (pushed seen members)
  unfolding extract_all AllPlain
  extract_all-IsSound limit total nodes seen [] out v q h =
      let o : nodes ≡ out = cc h in simp (← o) (total, v)
  extract_all-IsSound limit total nodes seen ((e, path) ∷ members) out v (plain, q) h =
      elim (Result-cases (extract_member can_write limit total nodes e path)) [
        | inr (x, f) ↦ absurd (ground (arith, h, f))
        | inl ((made, sum), f) ↦
            extract_all-IsSound limit sum made (join_slash path ∷ seen) members out
              (extract_member-IsSound limit total nodes seen e path made sum v plain f) q
              (ground (arith, h, f))
      ]

  pub safe_extract_zip-IsContained :
      (U : UnicodeLibrary) (limits : Limits) (archive : Option (List Entry)) (nodes : List Node)
      → safe_extract_zip can_write U limits archive ≡ ok nodes
      → IsContained limits nodes
  unfolding safe_extract_zip AreBelow
  safe_extract_zip-IsContained U limits none nodes h = absurd (cc h)
  safe_extract_zip-IsContained U limits (some entries) nodes h =
      elim (Result-cases (check_members U [] entries)) [
        | inr (x, f) ↦ absurd (ground (arith, h, f))
        | inl (members, f) ↦
            let (clean, plain, n) =
              check_members-IsClean U [] entries members f
                (record { distinct = tt; no_manifest = refl }) in
            let (sum, v) =
              extract_all-IsSound limits.max_extracted_bytes 0 [] [] members nodes
                (record { within = omega arith; counted = refl; part = tt; below = tt }) plain
                (ground (arith, h, f)) in
            let few : length entries ≤ limits.max_archive_files = ground (arith, h, f) in
            record {
              bytes = omega (arith, v.within, v.counted);
              count = omega (
                arith,
                few,
                n,
                length-pushed [] members,
                length-IsPart (file_texts nodes) (pushed [] members) v.part,
              );
              distinct =
                  distinct-IsPart (file_texts nodes) (pushed [] members) v.part clean.distinct;
              below = v.below;
              no_manifest =
                  contains-IsPart (file_texts nodes) (pushed [] members) manifest_name v.part
                    clean.no_manifest;
            }
      ]
