-- ===== src/Unarchiver/Contents.antt =====
-- What an archive says that its files are: the tree that its headers describe, one after another,
-- without the calls that internal/unarchiver/unarchiver.go makes for them.
use photon_container.Base.{
  String, Bool, true, not, ◌&&◌, ◌||◌, Option, none, some, List, [], ◌∷◌, str_eq,
}
use text.Mathlib.Text.{starts_with}
use photon_container.Os.Calls.{is_dir, is_missing}
use photon_container.Os.Files.{FilePath, Files, Node, dir, file, parent, join, put_node, strip}
use photon_container.Unarchiver.Extract.{TypeFlag, type_dir, type_reg, type_other, Entry}

-- The tree with a file in place of whatever is at and below `p`.
abbrev pub put_file : Files → FilePath → Node → Files
put_file fs p n q = elim (strip p q) [
  | none ↦ fs q
  | some r ↦ elim r [ [] ↦ some n | _ ∷ _ ↦ none ]
]

abbrev pub place_as : TypeFlag → Files → FilePath → Entry → Files
place_as type_dir fs p e = put_node fs p (some dir)
place_as type_reg fs p e = put_file fs p (file e.body.content e.mod_time)
place_as type_other fs p e = fs

-- The tree with what one header describes, below `dest`.
abbrev pub place : FilePath → Files → Entry → Files
place dest fs e = place_as e.typeflag fs (join dest e.name) e

-- The tree with what the headers of an archive describe, a later one over an earlier.
abbrev pub unpack : FilePath → Files → List (Option Entry) → Files
unpack dest fs [] = fs
unpack dest fs (none ∷ rest) = unpack dest fs rest
unpack dest fs (some e ∷ rest) = unpack dest (place dest fs e) rest

-- No element is the name of a temporary file.
abbrev pub no_temp : List String → Bool
no_temp [] = true
no_temp (s ∷ rest) = not (starts_with s "tmp-") && no_temp rest

-- No element leads upwards, nor is the name of a temporary file.
abbrev pub is_fair : List String → Bool
is_fair [] = true
is_fair (s ∷ rest) = not (str_eq s "..") && (not (starts_with s "tmp-") && is_fair rest)

abbrev pub fits_as : TypeFlag → Files → FilePath → Entry → Bool
fits_as type_dir fs p e = is_dir (fs p) || (is_missing (fs p) && is_dir (fs (parent p)))
fits_as type_reg fs p e = not (is_dir (fs p)) && (is_dir (fs (parent p)) && not e.body.broken)
fits_as type_other fs p e = true

-- The directory that a header needs is there, and what it needs no directory for is none.
abbrev pub fits : FilePath → Files → Entry → Bool
fits dest fs e = is_fair e.name && fits_as e.typeflag fs (join dest e.name) e

-- Each header fits in the tree of those before it.
abbrev pub all_fit : FilePath → Files → List (Option Entry) → Bool
all_fit dest fs [] = true
all_fit dest fs (none ∷ rest) = all_fit dest fs rest
all_fit dest fs (some e ∷ rest) = fits dest fs e && all_fit dest (place dest fs e) rest

-- A root directory with nothing in it.
abbrev pub empty_root : Files
empty_root [] = some dir
empty_root (s ∷ q) = none
