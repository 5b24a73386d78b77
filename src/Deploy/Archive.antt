-- ===== src/Deploy/Archive.antt =====
-- From an archive to a staged tree in src/titanbox/deploy.py: `_safe_extract_zip`,
-- `_flatten_single_root` and `_validate_tree`. The archive is the list of its entries as `zipfile`
-- reads them. Directories are
-- nodes too, those that are made on the way to a file included. The staging directory is new and
-- holds no symlink, so that the check of the resolved
-- parent never fires and is left out. Parsers of sources are one parameter.
pub mod Laws
use vpsssssskjwjw.Prelude.{
  ℕ, ◌+◌, ◌≡◌, Bool, true, false, ◌&&◌, ◌||◌, not, Option, none, some, List, [], ◌∷◌, ◌++◌, reverse,
  Text, text_eq, nat_eq, ◌==◌, codes, contains, leb, length, if◌then◌else◌,
}
use vpsssssskjwjw.Prelude.Dict.{Dict}
use vpsssssskjwjw.Prelude.Result.{Result, ok, err, ◌>>=◌, ◌>>◌, guard}
use vpsssssskjwjw.Deploy.Paths.{UnicodeLibrary, PathError, zip_member_path, join_slash}
use vpsssssskjwjw.Deploy.Manifest
use vpsssssskjwjw.Deploy.Manifest.{Tree, write_manifest}

pub data ArchiveError : Type 0 where
  not_a_zip too_many_entries expands_too_far reserved_path duplicate_path symlink : ArchiveError
  member_too_long total_too_long file_exists too_many_files release_too_large invalid_source :
      ArchiveError
  bad_path : PathError → ArchiveError

-- An entry with the blocks that reading it gives, none of them empty.
pub record Entry : Type 0 where
  pub filename : Text
  pub file_size : ℕ
  pub is_link : Bool
  pub blocks : List Text

pub record Limits : Type 0 where
  pub max_archive_files : ℕ
  pub max_extracted_bytes : ℕ

-- What stands at a path in the staging directory: a file, or a directory (`none`).
abbrev pub Node : Type 0
Node = List Text × Option Text

abbrev pub manifest_name : Text
manifest_name = codes ".titanbox-release.json"

abbrev pub same_path : List Text → List Text → Bool
same_path [] [] = true
same_path [] (q ∷ qs) = false
same_path (p ∷ ps) [] = false
same_path (p ∷ ps) (q ∷ qs) = p == q && same_path ps qs

abbrev pub stands : List Node → List Text → Bool
stands [] path = false
stands ((p, c) ∷ nodes) path = same_path p path || stands nodes path

abbrev pub is_file_at : List Node → List Text → Bool
is_file_at [] path = false
is_file_at ((p, none) ∷ nodes) path = is_file_at nodes path
is_file_at ((p, some content) ∷ nodes) path = same_path p path || is_file_at nodes path

-- Whether one of the directories down to a path is a file; `above` is the path so far.
abbrev pub has_file_on : List Node → List Text → List Text → Bool
has_file_on nodes above [] = false
has_file_on nodes above (p ∷ ps) =
    is_file_at nodes (above ++ (p ∷ [])) || has_file_on nodes (above ++ (p ∷ [])) ps

-- `mkdir(parents=True, exist_ok=True)`: the directories down to a path that are not there yet.
unfoldable pub make_dirs : List Text → List Text → List Node → List Node
make_dirs above [] nodes = nodes
make_dirs above (p ∷ ps) nodes =
    let here = above ++ (p ∷ []) in
    make_dirs here ps (if stands nodes here then nodes else (here, none) ∷ nodes)

-- `target.parent`
abbrev pub parent : List Text → List Text
parent [] = []
parent (p ∷ []) = []
parent (p ∷ q ∷ ps) = p ∷ parent (q ∷ ps)

-- A file cannot be put in place of a directory, such as the staging directory itself.
abbrev pub is_taken : List Node → List Text → Bool
is_taken nodes [] = true
is_taken nodes (p ∷ ps) = stands nodes (p ∷ ps) || has_file_on nodes [] (parent (p ∷ ps))

-- `filename.rstrip("/")`, on the reversed name.
unfoldable pub drop_slashes : Text → Text
drop_slashes [] = []
drop_slashes (c ∷ s) = let rest = drop_slashes s in if c == 47 then rest else c ∷ s

abbrev pub ends_with_slash : Text → Bool
ends_with_slash [] = false
ends_with_slash (c ∷ []) = c == 47
ends_with_slash (c ∷ d ∷ s) = ends_with_slash (d ∷ s)

abbrev pub total_size : List Entry → ℕ
total_size [] = 0
total_size (e ∷ es) = e.file_size + total_size es

abbrev pub lift_path {ℓ} : {A : Type ℓ} → Result PathError A → Result ArchiveError A
lift_path (ok a) = ok a
lift_path (err e) = err (bad_path e)

-- The checks of one entry; `seen` are the paths of those before.
unfoldable pub check_member : UnicodeLibrary → List Text → Entry → Result ArchiveError (List Text)
check_member U seen e = do
  path ← lift_path (zip_member_path U (reverse (drop_slashes (reverse e.filename))))
  guard (not (join_slash path == manifest_name)) reserved_path
  guard (not (contains seen (join_slash path))) duplicate_path
  guard (not e.is_link) symlink
  ok path

unfoldable pub check_members :
    UnicodeLibrary → List Text → List Entry → Result ArchiveError (List (Entry × List Text))
check_members U seen [] = ok []
check_members U seen (e ∷ es) = check_member U seen e >>= λ (path : List Text).
    check_members U (join_slash path ∷ seen) es >>= λ (rest : List (Entry × List Text)).
    ok ((e, path) ∷ rest)

-- The blocks of a file as they are written, with the bytes of all files so far.
unfoldable pub read_blocks : ℕ → ℕ → ℕ → ℕ → List Text → Result ArchiveError (Text × ℕ)
read_blocks declared limit written total [] = ok ([], total)
read_blocks declared limit written total (b ∷ bs) = do
  guard (leb (written + length b) (declared + 1024)) member_too_long
  guard (leb (total + length b) limit) total_too_long
  (content, sum) ← read_blocks declared limit (written + length b) (total + length b) bs
  ok (b ++ content, sum)

abbrev pub bytes_of : List Node → ℕ
bytes_of [] = 0
bytes_of ((path, none) ∷ nodes) = bytes_of nodes
bytes_of ((path, some content) ∷ nodes) = length content + bytes_of nodes

-- The second loop, the newest node first. `can_write` is whether the system lets a path be made where
-- nothing is in the way.
module _ (can_write : List Node → List Text → Bool) where
  abbrev pub put_directory : List Node → List Text → Result ArchiveError (List Node)
  put_directory nodes path =
      guard (not (has_file_on nodes [] path)) file_exists >> ok (make_dirs [] path nodes)

  abbrev pub put_member :
      ℕ → ℕ → List Node → Entry → List Text → Result ArchiveError (List Node × ℕ)
  put_member limit total nodes e path = do
    guard (not (is_taken nodes path)) file_exists
    (content, sum) ← read_blocks e.file_size limit 0 total e.blocks
    ok ((path, some content) ∷ make_dirs [] (parent path) nodes, sum)

  abbrev pub put_entry :
      ℕ → ℕ → List Node → Entry → List Text → Bool → Result ArchiveError (List Node × ℕ)
  put_entry limit total nodes e path true =
      put_directory nodes path >>= λ (made : List Node). ok (made, total)
  put_entry limit total nodes e path false = put_member limit total nodes e path

  unfoldable pub extract_member :
      ℕ → ℕ → List Node → Entry → List Text → Result ArchiveError (List Node × ℕ)
  extract_member limit total nodes e path =
      guard (can_write nodes path) file_exists
      >> put_entry limit total nodes e path (ends_with_slash e.filename)

  unfoldable pub extract_all :
      ℕ → ℕ → List Node → List (Entry × List Text) → Result ArchiveError (List Node)
  extract_all limit total nodes [] = ok nodes
  extract_all limit total nodes ((e, path) ∷ members) =
      extract_member limit total nodes e path >>= λ (r : List Node × ℕ).
      extract_all limit r.1 r.0 members

  -- `none` is a file that is no archive.
  unfoldable pub safe_extract_zip :
      UnicodeLibrary → Limits → Option (List Entry) → Result ArchiveError (List Node)
  safe_extract_zip U limits none = err not_a_zip
  safe_extract_zip U limits (some entries) = do
    guard (leb (length entries) limits.max_archive_files) too_many_entries
    guard (leb (total_size entries) limits.max_extracted_bytes) expands_too_far
    members ← check_members U [] entries
    extract_all limits.max_extracted_bytes 0 [] members

-- `_flatten_single_root`: what macOS adds goes, and a directory that holds everything is opened.
unfoldable pub drop_macos : List Node → List Node
drop_macos [] = []
drop_macos (([], c) ∷ nodes) = ([], c) ∷ drop_macos nodes
drop_macos ((p ∷ ps, c) ∷ nodes) =
    let rest = drop_macos nodes in if p == codes "__MACOSX" then rest else (p ∷ ps, c) ∷ rest

-- Whether every node is the directory `root` or lies in it.
abbrev pub all_below : Text → List Node → Bool
all_below root [] = true
all_below root (([], c) ∷ nodes) = all_below root nodes
all_below root ((p ∷ [], none) ∷ nodes) = p == root && all_below root nodes
all_below root ((p ∷ [], some c) ∷ nodes) = false
all_below root ((p ∷ q ∷ ps, c) ∷ nodes) = p == root && all_below root nodes

abbrev pub first_name : List Node → Option Text
first_name [] = none
first_name (([], c) ∷ nodes) = first_name nodes
first_name ((p ∷ ps, c) ∷ nodes) = some p

abbrev pub drop_root : List Node → List Node
drop_root [] = []
drop_root (([], c) ∷ nodes) = drop_root nodes
drop_root ((p ∷ [], c) ∷ nodes) = drop_root nodes
drop_root ((p ∷ q ∷ ps, c) ∷ nodes) = (q ∷ ps, c) ∷ drop_root nodes

abbrev pub open_root : Option Text → List Node → List Node
open_root none nodes = nodes
open_root (some root) nodes = if all_below root nodes then drop_root nodes else nodes

unfoldable pub flatten_single_root : List Node → List Node
unfolding drop_macos
flatten_single_root nodes = open_root (first_name (drop_macos nodes)) (drop_macos nodes)

-- The regular files, without the manifest.
unfoldable pub files_of : List Node → Dict Text Text
files_of [] = []
files_of ((path, none) ∷ nodes) = files_of nodes
files_of ((path, some content) ∷ nodes) =
    let rest = files_of nodes in
    if join_slash path == manifest_name then rest else (join_slash path, content) ∷ rest

-- The loop of `_validate_tree`; `parses` is whether a source of that name is accepted. An archive
-- holds no manifest at its root, but a directory that is opened may: it is a file for this loop.
unfoldable pub check_tree :
    (Text → Text → Bool) → Limits → ℕ → ℕ → List Node → Result ArchiveError (Unit {0})
check_tree parses limits count total [] = ok tt
check_tree parses limits count total ((path, none) ∷ nodes) =
    check_tree parses limits count total nodes
check_tree parses limits count total ((path, some content) ∷ nodes) = do
  guard (leb (count + 1) limits.max_archive_files) too_many_files
  guard (leb (total + length content) limits.max_extracted_bytes) release_too_large
  guard (parses (join_slash path) content) invalid_source
  check_tree parses limits (count + 1) (total + length content) nodes

-- `sorted` puts the files in the order of their paths.
unfoldable pub validate_tree :
    (Text → Text → Bool)
    → (Dict Text Text → Dict Text Text)
    → (Text → Text)
    → Limits
    → List Node
    → Result ArchiveError Tree
validate_tree parses sorted sha256 limits nodes =
    check_tree parses limits 0 0 nodes
    >> ok
        (write_manifest sha256
          (record { files = sorted (files_of nodes); manifest = Manifest.missing })).1
