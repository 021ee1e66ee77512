-- ===== src/Examples.antt =====
-- A concrete data directory, with downloads and archives that stay small, for tests and examples.
mod Updates
mod Migrations
mod Servers
mod Downloads
mod Archives
mod Requests
mod Commands
mod Clients
mod Progresses
mod Successes
mod Logs
use photon_container.Base.{
  ◌≡◌, refl, Bool, true, false, String, Option, none, some, List, [], ◌∷◌, ◌++◌, ◌==◌, ℕ, ◌*◌,
  if◌then◌else◌,
}
use photon_container.Base.Time.{Time, hour}
use photon_container.Os.Files.{FilePath, Files, Node, dir, file, put_node, strip}
use photon_container.Photon.Types.{PhotonServer, Cmd, ProcessState, exited, new_photon_server}
use photon_container.Photondata.Types.{MigrationState, Migrator, migrated, new_migrator}
use photon_container.Photondata.Archive.{Archive}
use photon_container.Updater.Dependencies.{Downloader, Unarchiver, IsLawful}
use photon_container.World.{World, Env, M, ok, pure, unreachable, status_json, tick}

abbrev pub root : FilePath
root = "photon" ∷ []

-- The calls that fail are those of the given numbers, and a process ends as is given.
abbrev any_of : List ℕ → ℕ → Bool
any_of [] n = false
any_of (k ∷ rest) n = let more = any_of rest n in if k == n then true else more

abbrev pub env : List ℕ → ProcessState → Env
env faults end = record {
  fault = any_of faults;
  rand = λ _. "1" ∷ "2" ∷ [];
  gone = λ _ _. true;
  short = λ _. 0;
  clock = λ _. 5;
  ending = λ _. end;
  status = λ _. status_json "Ok" (some (1000 * hour));
  fetch = λ _ _ _. unreachable;
}

abbrev put_files : List (FilePath × Node) → Files → Files
put_files [] fs = fs
put_files ((p, n) ∷ rest) fs = put_files rest (put_node fs p (some n))

-- The old database, of one file.
abbrev pub old_files : Files
old_files =
    put_files
      (([], dir)
        ∷ (root, dir)
        ∷ (root ++ "node_1" ∷ [], dir)
        ∷ (root ++ "node_1" ∷ "index" ∷ [], file (1 ∷ []) 1)
        ∷ [])
      (λ _. none)

abbrev serving_cmd : Cmd
serving_cmd = record { args = "-jar" ∷ []; started = true; cancelled = false; process_state = none }

abbrev pub server : PhotonServer
server = record {
  jar_path = "photon.jar";
  photon_data_dir = "/photon";
  photon_server = some serving_cmd;
  additional_args = [];
}

abbrev pub migrator_at : MigrationState → Migrator
migrator_at s = record {
  data_dir = root ++ "node_1" ∷ [];
  photon_url = "http://localhost:2322/";
  state = s;
  cached_mod_time = 0;
}

abbrev pub world : Env → MigrationState → World
world e s = record {
  env = e;
  now = 0;
  files = old_files;
  photon = server;
  migrator = migrator_at s;
}

-- The new database beside the old one, where it is unarchived.
abbrev pub unarchived_files : FilePath → Files → Files
unarchived_files p = put_files (
    (p, dir)
    ∷ (p ++ "photon_data" ∷ [], dir)
    ∷ (p ++ "photon_data" ∷ "node_1" ∷ [], dir)
    ∷ (p ++ "photon_data" ∷ "node_1" ∷ "index" ∷ [], file (2 ∷ []) 2)
    ∷ [])

abbrev pub downloader : Downloader
downloader = record {
  download = λ _ p w. (ok tt, record w { files = put_node w.files p (some (file (9 ∷ []) 2)) });
  get_last_modified = λ _ w. (ok (2000 * hour), tick w);
}

abbrev pub unarchiver : Unarchiver
unarchiver = record {
  unarchive = λ _ p _ w. (ok tt, record w { files = unarchived_files p w.files });
}

abbrev pub archive : Archive
archive = record { base_url = "https://localhost/public"; archive_name = "photon.tar.bz2" }

pub lawful : IsLawful root downloader unarchiver
unfolding strip
lawful = record {
  download_keeps =
      λ a w. record { at = (record { migrator = refl; photon = refl; env = refl }, λ q. refl) };
  unarchive_keeps =
      λ r o w. record { at = (record { migrator = refl; photon = refl; env = refl }, λ q. refl) };
}
