-- ===== src/Unarchiver/Extract.antt =====
-- internal/unarchiver/unarchiver.go and unarchiver_options.go. The decoders of compress/bzip2 and
-- archive/tar are parameters; the rate limit delays the reading and changes nothing else.
use photon_container.Base.{
  String, Bool, true, false, Option, none, some, List, [], ◌∷◌, if◌then◌else◌,
}
use photon_container.Base.Time.{Time}
use photon_container.Os.Files.{FilePath, Reader, Node, dir, file, parent, join}
use photon_container.Os.Calls.{
  stat, mkdir, mkdir_all, chtimes, create_temp, copy, close, rename, remove, remove_all,
}
use photon_container.Unarchiver.Options.{UnarchiveOption, runtime_option}
use photon_container.World.{
  M, Error, failed, wrap, joined, is_not_exist, pure, raise, wrapped, deferred, ignored, recover,
  branch, ◌>>=◌, ◌>>◌,
}

pub data TypeFlag : Type 0 where
  type_dir type_reg type_other : TypeFlag

-- A `tar.Header`, its name as the elements between slashes, with the contents that follow it.
pub record Entry : Type 0 where
  pub name : List String
  pub typeflag : TypeFlag
  pub mod_time : Time
  pub body : Reader

-- What the calls of `Next` give: headers (`none` for nil), and then EOF or an error.
pub record Tar : Type 0 where
  pub entries : List (Option Entry)
  pub broken : Bool

-- `bzip2.NewReader` and `tar.NewReader`
pub record Codec : Type 0 where
  pub bunzip2 : Reader → Reader
  pub untar : Reader → Tar

-- The deferred function of `atomicWrite`.
unfoldable pub discard : FilePath → M (Unit {0})
discard tmp = do ignored close; remove tmp

-- `atomicWrite`
unfoldable pub atomic_write : FilePath → Reader → M (Unit {0})
unfolding discard
atomic_write dest src = do
  tmp ← wrapped "failed to create temp file" (create_temp (parent dest))
  deferred (discard tmp) do
    wrapped "failed to copy file" (copy tmp src)
    wrapped "failed to rename temp file" (rename tmp dest)

unfoldable pub make_dir : FilePath → Error → M (Unit {0})
make_dir target e =
    if is_not_exist e
    then wrapped "unarchiver.Unarchiver.Unarchive: failed to create directory" (mkdir target)
    else raise (wrap "unarchiver.Unarchiver.Unarchive: failed to stat directory" e)

unfoldable pub touch : FilePath → Time → M (Unit {0})
touch target t =
    wrapped "unarchiver.Unarchiver.Unarchive: failed to change modtime of directory"
      (chtimes target t)

-- The body of the loop of `unarchive`, for one header.
unfoldable pub extract_as : TypeFlag → FilePath → Entry → M (Unit {0})
unfolding make_dir touch
extract_as type_dir target e = do
  recover (do _ ← stat target; pure tt) (make_dir target)
  touch target e.mod_time
extract_as type_reg target e = do
  wrapped "unarchiver.Unarchiver.Unarchive: failed to write file" (atomic_write target e.body)
  touch target e.mod_time
extract_as type_other target e = pure tt

unfoldable pub extract : FilePath → Entry → M (Unit {0})
unfolding extract_as
extract dest e = extract_as e.typeflag (join dest e.name) e

-- The loop of `unarchive`.
unfoldable pub extract_all : FilePath → Bool → List (Option Entry) → M (Unit {0})
extract_all dest true [] =
    raise (wrap "unarchiver.Unarchiver.Unarchive: failed to read tar header" (failed "tar"))
extract_all dest false [] = pure tt
extract_all dest broken (none ∷ rest) = extract_all dest broken rest
extract_all dest broken (some e ∷ rest) = do extract dest e; extract_all dest broken rest

-- The archive as `unarchive` reads it.
abbrev pub decoded : Codec → List UnarchiveOption → Reader → Tar
decoded codec options r =
    codec.untar (if (runtime_option options).no_compression then r else codec.bunzip2 r)

module _ (codec : Codec) where
  -- `unarchive`
  unfoldable pub unarchive_into : Reader → FilePath → List UnarchiveOption → M (Unit {0})
  unarchive_into archive dest options =
      let r = if (runtime_option options).no_compression then archive else codec.bunzip2 archive in
      extract_all dest (codec.untar r).broken (codec.untar r).entries

  unfoldable pub require_dir : Node → M (Unit {0})
  require_dir dir = pure tt
  require_dir (file _ _) =
      raise (failed "unarchiver.Unarchiver.Unarchive: destination is not a directory")

  -- The check of the destination: it is created on whatever error of `os.Stat`.
  unfoldable pub prepare : FilePath → M (Unit {0})
  unfolding require_dir
  prepare dest = branch (stat dest) require_dir λ _.
      wrapped "unarchiver.Unarchiver.Unarchive: failed to create destination directory"
        (mkdir_all dest)

  unfoldable pub clean_up : FilePath → Error → M (Unit {0})
  clean_up dest e = do
    recover (remove_all dest) λ rm. raise (
        wrap "unarchiver.Unarchiver.Unarchive: failed to unarchive" (
          joined e
            (wrap "unarchiver.Unarchiver.Unarchive: failed to remove destination directory" rm)))
    raise (wrap "unarchiver.Unarchiver.Unarchive: failed to unarchive" e)

  -- `Unarchive`
  unfoldable pub unarchive : Reader → FilePath → List UnarchiveOption → M (Unit {0})
  unfolding clean_up
  unarchive archive dest options = do
    prepare dest
    recover (unarchive_into archive dest options) (clean_up dest)
