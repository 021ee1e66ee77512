-- ===== src/Os/Calls.antt =====
-- The calls of Go's `os` package that the program makes, each with its failures.
use photon_container.Base.{
  suc, String, ◌<>◌, Bool, true, false, not, ◌&&◌, ◌||◌, Option, none, some, List, [], ◌∷◌, ◌++◌,
  take, if◌then◌else◌,
}
use photon_container.Base.Time.{Time}
use photon_container.Os.Files.{
  FilePath, Files, Bytes, Reader, Node, dir, file, parent, under, put_node, move_tree, cut_tree,
  thin_tree,
}
use photon_container.World.{World, M, ok, err, not_exist, failed, tick, pure, raise, ◌>>◌}

abbrev pub is_dir : Option Node → Bool
is_dir none = false
is_dir (some dir) = true
is_dir (some (file _ _)) = false

abbrev pub is_missing : Option Node → Bool
is_missing none = true
is_missing (some _) = false

-- A call fails if the environment says so, with the files that it leaves then.
abbrev pub call {ℓ} : {A : Type ℓ} → String → (World → Files) → M A → M A
call name broken act w =
    if w.env.fault w.now
    then (err (failed name), record w { now = suc w.now; files = broken w })
    else act (tick w)

abbrev pub untouched : World → Files
untouched w = w.files

abbrev pub nearest_file : Bool → Option Node → Bool
nearest_file above none = above
nearest_file above (some n) = not (is_dir (some n))

-- What stands nearest above the path is a file. The first argument tells this of the path's start.
abbrev pub blocked : Bool → Files → FilePath → Bool
blocked above fs [] = above
blocked above fs (s ∷ p) = blocked (nearest_file above (fs [])) (λ q. fs (s ∷ q)) p

abbrev found : Bool → Option Node → M Node
found below_file none = raise (if below_file then failed "not a directory" else not_exist)
found below_file (some n) = pure n

-- `os.Stat`. With a file on the way to the path its error is not that of an absent path.
unfoldable pub stat : FilePath → M Node
stat p = call "stat" untouched λ w. found (blocked false w.files p) (w.files p) w

-- A directory can be opened, and cannot be read. Nothing changes a file while it is read.
abbrev reader : Node → Reader
reader dir = record { content = []; broken = true }
reader (file b _) = record { content = b; broken = false }

abbrev pub opened : Option Node → M Reader
opened none = raise not_exist
opened (some n) = pure (reader n)

-- `os.Open`
unfoldable pub open_file : FilePath → M Reader
open_file p = call "open" untouched λ w. opened (w.files p) w

abbrev rename_node : FilePath → FilePath → Option Node → M (Unit {0})
rename_node src dst none w = (err not_exist, w)
rename_node src dst (some n) w =
    if is_dir (w.files dst)
    then (err (failed "file exists"), w)
    else if not (is_dir (w.files (parent dst)))
    then (err (failed "no such directory"), w)
    else if is_dir (some n) && (under src dst || not (is_missing (w.files dst)))
    then (err (failed "invalid argument"), w)
    else (ok tt, record w { files = move_tree w.files src dst })

-- `os.Rename`. The source must exist, the target may be no directory and must stand in one; a
-- directory does not replace a file, and does not move below itself.
unfoldable pub rename : FilePath → FilePath → M (Unit {0})
rename src dst = call "rename" untouched λ w. rename_node src dst (w.files src) w

-- `os.RemoveAll`, which is no error where there is nothing. A failure may have removed a part.
unfoldable pub remove_all : FilePath → M (Unit {0})
remove_all p =
    call "removeall" (λ w. thin_tree (w.env.gone w.now) w.files p)
      λ w. (ok tt, record w { files = cut_tree w.files p })

abbrev remove_node : FilePath → Option Node → M (Unit {0})
remove_node p none w = (err not_exist, w)
remove_node p (some dir) w = (err (failed "is a directory"), w)
remove_node p (some (file _ _)) w = (ok tt, record w { files = put_node w.files p none })

-- `os.Remove` of a temporary file. (It also removes an empty directory, for which it is not used.)
unfoldable pub remove : FilePath → M (Unit {0})
remove p = call "remove" untouched λ w. remove_node p (w.files p) w

abbrev make_node : FilePath → Option Node → M (Unit {0})
make_node p (some _) w = (err (failed "file exists"), w)
make_node p none w =
    if is_dir (w.files (parent p))
    then (ok tt, record w { files = put_node w.files p (some dir) })
    else (err not_exist, w)

-- `os.Mkdir`
unfoldable pub mkdir : FilePath → M (Unit {0})
mkdir p = call "mkdir" untouched λ w. make_node p (w.files p) w

abbrev pub ensure_dir : FilePath → Option Node → M (Unit {0})
ensure_dir p (some dir) = pure tt
ensure_dir p (some (file _ _)) = raise (failed "not a directory")
ensure_dir p none = mkdir p

-- `os.MkdirAll`: the directories on the way, from the root down.
abbrev pub mkdir_below : FilePath → List String → M (Unit {0})
mkdir_below p [] = pure tt
mkdir_below p (s ∷ rest) = do
  (λ w. ensure_dir (p ++ s ∷ []) (w.files (p ++ s ∷ [])) w)
  mkdir_below (p ++ s ∷ []) rest

unfoldable pub mkdir_all : FilePath → M (Unit {0})
unfolding mkdir
mkdir_all = mkdir_below []

abbrev set_times : FilePath → Time → Option Node → M (Unit {0})
set_times p t none w = (err not_exist, w)
set_times p t (some dir) w = (ok tt, w)
set_times p t (some (file b _)) w =
    (ok tt, record w { files = put_node w.files p (some (file b t)) })

-- `os.Chtimes`, with one time for both of its arguments. Of a directory nothing is seen of it.
unfoldable pub chtimes : FilePath → Time → M (Unit {0})
chtimes p t = call "chtimes" untouched λ w. set_times p t (w.files p) w

abbrev pub temp_name : String → String
temp_name r = "tmp-" <> r

-- The attempts of `os.CreateTemp(d, "tmp-*")`: the first name that is not taken.
abbrev pub create_first : FilePath → List String → M FilePath
create_first d [] w = (err (failed "createtemp"), w)
create_first d (r ∷ rest) w =
    let more = create_first d rest w in
    if is_missing (w.files (d ++ temp_name r ∷ []))
    then (
      ok (d ++ temp_name r ∷ []),
      record w {
        files = put_node w.files (d ++ temp_name r ∷ []) (some (file [] (w.env.clock w.now)));
      },
    )
    else more

unfoldable pub create_temp : FilePath → M FilePath
create_temp d =
    call "createtemp" untouched
      λ w. if is_dir (w.files d) then create_first d (w.env.rand w.now) w else (err not_exist, w)

abbrev write_node : FilePath → Bytes → World → Files
write_node p b w = put_node w.files p (some (file b (w.env.clock w.now)))

-- `io.Copy` into the open temporary file at `p`. A failure may have written a part.
unfoldable pub write : FilePath → Bytes → M (Unit {0})
write p b =
    call "write" (λ w. write_node p (take (w.env.short w.now) b) w)
      λ w. (ok tt, record w { files = write_node p b w })

-- `f.Close()` of a file that was written.
unfoldable pub close : M (Unit {0})
close = call "close" untouched (pure tt)

-- `io.Copy` from a reader.
unfoldable pub copy : FilePath → Reader → M (Unit {0})
copy p src = do write p src.content; if src.broken then raise (failed "read") else pure tt
