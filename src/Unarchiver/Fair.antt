-- ===== src/Unarchiver/Fair.antt =====
-- internal/unarchiver/unarchiver.go: no name in an archive is that of a temporary file, and so none
-- is in the way of what `atomicWrite` creates.
use photon_container.Base.{
  ◌≡◌, ◌≢◌, refl, sym, subst, ap, ◌∙◌, String, Bool, true, false, not, ◌||◌, Option, none, some,
  List, [], ◌∷◌, ◌++◌, arith, str_eq, append_assoc, append-nil, if◌then◌else◌,
}
use text.Mathlib.Text.{starts_with}
use text.Mathlib.TextPositions.{starts_with-append}
use photon_container.Os.Calls.{temp_name}
use photon_container.Os.Files.{
  FilePath, Files, Node, parent, join, push, put_node, strip, strip-append_left, strip_sound,
}
use photon_container.Unarchiver.Contents.{no_temp, is_fair, put_file, place_as, place}
use photon_container.Unarchiver.Extract.{TypeFlag, type_dir, type_reg, type_other, Entry}

pub no_temp-temp_name :
    (p : FilePath) (s : String) (q : FilePath) → no_temp (p ++ (temp_name s ∷ q)) ≡ false
no_temp-temp_name [] s q = rw (starts_with-append "tmp-" s) refl
no_temp-temp_name (t ∷ p) s q = ground (arith, no_temp-temp_name p s q)

no_temp-snoc :
    (p : FilePath) (s : String)
    → no_temp p ≡ true
    → not (starts_with s "tmp-") ≡ true
    → no_temp (p ++ s ∷ []) ≡ true
no_temp-snoc [] s h k = rw k refl
no_temp-snoc (t ∷ p) s h k = ground (arith, h, no_temp-snoc p s (ground (arith, h)) k)

-- A path with a temporary file's name in it is none without.
pub no_temp_apart : (p q : FilePath) → no_temp p ≡ true → no_temp q ≡ false → strip p q ≢ some []
no_temp_apart p q h k e = ground (arith, h, k, ap no_temp (strip_sound p q [] e ∙ append-nil p))

module _ (dest : FilePath) where
  -- The path is the destination or below it, by names of which none is a temporary file's.
  abbrev pub IsFairBelow : FilePath → Type 0
  IsFairBelow t = (rest : FilePath) × (t ≡ dest ++ rest) × (no_temp rest ≡ true)

  pushed :
      (t : FilePath) (s : String) (here up : Bool)
      → not up ≡ true
      → not (starts_with s "tmp-") ≡ true
      → IsFairBelow t
      → IsFairBelow (if here then t else if up then parent t else t ++ s ∷ [])
  pushed t s true up k l h = h
  pushed t s false true k l h = ground (arith, k)
  pushed t s false false k l (rest, e, h) = (
    rest ++ s ∷ [],
    ap (λ x. x ++ s ∷ []) e ∙ append_assoc dest rest (s ∷ []),
    no_temp-snoc rest s h l,
  )

  pub join-IsFairBelow :
      (t : FilePath) (name : List String)
      → is_fair name ≡ true
      → IsFairBelow t
      → IsFairBelow (join t name)
  join-IsFairBelow t [] fair h = h
  join-IsFairBelow t (s ∷ rest) fair h = join-IsFairBelow (push t s) rest (ground (arith, fair)) (
      pushed t s (str_eq s "" || str_eq s ".") (str_eq s "..") (ground (arith, fair))
        (ground (arith, fair)) h)

  -- Below the destination there is no temporary file, nor anything below one.
  abbrev pub IsClean : Files → Type 0
  IsClean fs = (q : FilePath) → no_temp q ≡ false → fs (dest ++ q) ≡ none

  module _ (fs : Files) (clean : IsClean fs) (rest : FilePath) (fair : no_temp rest ≡ true) where
    put_node-IsClean : (n : Option Node) → IsClean (put_node fs (dest ++ rest) n)
    put_node-IsClean n q bad =
        rw (strip-append_left dest rest q, put_node)
          (ground (arith, no_temp_apart rest q fair bad, clean q bad))

    put_file-IsClean : (n : Node) → IsClean (put_file fs (dest ++ rest) n)
    put_file-IsClean n q bad =
        rw (strip-append_left dest rest q, put_file)
          (ground (arith, no_temp_apart rest q fair bad, clean q bad))

    place_as-IsClean : (f : TypeFlag) (e : Entry) → IsClean (place_as f fs (dest ++ rest) e)
    place_as-IsClean type_dir e = put_node-IsClean _
    place_as-IsClean type_reg e = put_file-IsClean _
    place_as-IsClean type_other e = clean

  pub target-IsFairBelow : (e : Entry) → is_fair e.name ≡ true → IsFairBelow (join dest e.name)
  target-IsFairBelow e fair = join-IsFairBelow dest e.name fair ([], sym (append-nil dest), refl)

  -- What a header describes is no temporary file.
  pub place-IsClean :
      (fs : Files) (e : Entry) → IsClean fs → is_fair e.name ≡ true → IsClean (place dest fs e)
  place-IsClean fs e clean fair =
      let (rest, at, named) = target-IsFairBelow e fair in
      subst (λ t. IsClean (place_as e.typeflag fs t e)) (sym at)
        (place_as-IsClean fs clean rest named e.typeflag e)
