-- ===== src/Tests/Archive.antt =====
-- Paths and archives of src/titanbox/deploy.py at concrete inputs.
use vpsssssskjwjw.Prelude.{
  ◌≡◌, refl, false, none, some, List, [], ◌∷◌, text_dec, text_eq, nat_eq, ◌==◌, codes, All, ltb,
}
use vpsssssskjwjw.Deploy.Paths.{UnicodeLibrary, validate_relative_path}
use vpsssssskjwjw.Deploy.Paths.Laws.{IsPlain, walk, below, relative_path-below}
use vpsssssskjwjw.Deploy.Archive.{Entry, Limits, Node}

abbrev unicode : UnicodeLibrary
unicode = record { is_space = λ c. c == 32; is_invisible = λ c. ltb c 32; nfc = λ s. s }

relative_path-below_example :
    All IsPlain (codes "src" ∷ codes "a.py" ∷ [])
    × (walk (codes "release" ∷ []) (codes "src" ∷ codes "a.py" ∷ [])
        ≡ below (codes "release" ∷ []) (codes "src" ∷ codes "a.py" ∷ []))
unfolding validate_relative_path text_dec vpsssssskjwjw.Deploy.Paths.to_slashes
    vpsssssskjwjw.Deploy.Paths.strip vpsssssskjwjw.Deploy.Paths.drop_spaces
    vpsssssskjwjw.Deploy.Paths.check_parts vpsssssskjwjw.Deploy.Paths.parts
    vpsssssskjwjw.Deploy.Paths.components vpsssssskjwjw.Deploy.Paths.split_slash
relative_path-below_example =
    relative_path-below unicode (codes " src\\a.py ") (codes "src" ∷ codes "a.py" ∷ [])
      (codes "release" ∷ []) refl

-- The directories of the second file are no entries.
abbrev archive : List Entry
archive =
    record { filename = codes "app/"; file_size = 0; is_link = false; blocks = [] }
    ∷ record {
      filename = codes "app/a.py";
      file_size = 3;
      is_link = false;
      blocks = codes "ab" ∷ codes "c" ∷ [];
    }
    ∷ record {
      filename = codes "lib/b/c.py";
      file_size = 1;
      is_link = false;
      blocks = codes "d" ∷ [];
    }
    ∷ []

abbrev limits : Limits
limits = record { max_archive_files = 10; max_extracted_bytes = 100 }

abbrev nodes : List Node
nodes =
    (codes "lib" ∷ codes "b" ∷ codes "c.py" ∷ [], some (codes "d"))
    ∷ (codes "lib" ∷ codes "b" ∷ [], none)
    ∷ (codes "lib" ∷ [], none)
    ∷ (codes "app" ∷ codes "a.py" ∷ [], some (codes "abc"))
    ∷ (codes "app" ∷ [], none)
    ∷ []
