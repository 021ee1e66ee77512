-- ===== src/Lib.antt =====
-- photon-container keeps the search database of Photon, a geocoder, up to date. Its agent runs
-- Photon as a child process, and on a request puts a new database in place: it downloads or
-- receives an archive, unarchives it, moves the result to where the database was, and restarts
-- Photon. A second program, photon-db-updater, downloads an archive, uploads it to the agent and
-- waits for it. This development models the parts that do this, and what they leave behind when
-- any call on the way fails.
--
-- World is what the parts act on: the files, the server and the migrator, and an environment that
-- answers each call to the operating system, the network and the child process by the call's
-- number. A method is a function from a world to its result, or its error, and the next world.
-- World/Rules has one rule for each way in which methods are put together, World/Frames those for
-- what a method keeps, World/Returns those for methods that are known to return, World/Agreement
-- those for two methods with the same result. A goroutine is returned as a method of its own,
-- which runs after the return; the two strategies start at most one.
-- - Os models Go's os package on a tree of files: Os/Files the paths and trees, Os/Calls the
--   calls with their failures, Os/Laws what rename and RemoveAll leave, Os/Frames what calls
--   leave alone, Os/Success what they do without a fault.
-- - Photon is internal/photon: `PhotonServer` with Start, Stop, Running (server.go, options.go).
-- - Photondata is internal/photondata: Types and Migrator are migrator.go and migrator_options.go
--   (State, ResetState, MigrateByReplace, MigrateByRemoveFirst), Archive is archive.go,
--   ArchiveUrls about the URLs of archives. Layout names the paths below the data directory;
--   Replacement, Outcomes and Success are about what migrations do. Photondata/Exclusion
--   interleaves the locked steps of many migrations.
-- - Downloader is internal/downloader: Download is downloader.go, Fields the splitting of its MD5
--   files, Options is options.go with `New`; Frame, Sums, Verified and Success are about them.
--   MD5 is a parameter. Progress is progress.go: `Write` and the goroutine that logs, a step at a
--   time, around their mutex.
-- - Server is internal/server: Handlers is server.go and migration_handler.go, Requests is about
--   them.
-- - Logging is internal/logging: Setup is setup.go and context.go, Middleware is middleware.go,
--   the access log, and AccessLog is about it around the handlers of Server.
-- - Metrics is migrate.go, photon.go and photon_options.go of internal/metrics; Latest is the
--   goroutine of photon.go.
-- - Client is internal/client/photonagent: Options is options.go, Requests is client.go, Progress
--   is progress.go. Agent puts the handlers of Server at the other end of the client; Exchanges,
--   Uploads and SequentialUploads are about the two together.
-- - Unarchiver is internal/unarchiver: Extract is unarchiver.go, over the decoders of Go's
--   library as a parameter; Options is unarchive_options.go and unarchiver_options.go. Frame and
--   Lawful are about what it leaves alone. Contents is the directories and files that the headers
--   of an archive describe; Fair, Writes, Success, Local and Refinement show that it is what
--   Unarchive makes.
-- - Updater is internal/updater: Options is options.go and constants.go, Dependencies is
--   dependencies.go with the laws that the updaters rely on, Parallel is parallel.go, Sequential
--   is sequential.go, Entry is updater.go. Restart, Cleanup, ParallelRuns, SequentialRuns,
--   SequentialUpdate, AsyncRuns, LateRuns, Admission, Preparation, RestartSuccess,
--   RemovalSuccess, ParallelSuccess, SequentialSuccess, Wired, Agreement, WiredRuns, Fetched,
--   EndToEnd and SequentialEndToEnd are about them.
-- - Cmd is cmd: PhotonAgent is photon-agent/main.go, PhotonDbUpdater is
--   photon-db-updater/main.go, from the values of their flags on, which CommandLine reads.
--   Wiring, AgentRuns, Serving and Variables are about the first, Flags, Waiting, ParallelWait
--   and SequentialWait about the second, with the agent at the other end.
-- - Examples runs the code on a small directory, and applies the theorems to it.
--
-- The updaters are given a downloader and an unarchiver by interface. Of these they need that
-- they leave the database and the services alone (`IsLawful`). The downloader of the program
-- does, and its unarchiver does with an archive in which no name has ".." (Updater/Wired);
-- WiredRuns needs this of the archives that may come from the servers only, by way of an
-- unarchiver that refuses all others (Updater/Agreement). Over these, Updater/EndToEnd and
-- Updater/SequentialEndToEnd follow an update from the replies of the server to the tree in place
-- of the database.
--
-- Every function is structural on a list or a path, so there is no fuel; a loop that waits is a
-- function of the list of what wakes it. Numbers are natural numbers; a time is in nanoseconds,
-- and `time.Duration`, a 64-bit integer, saturates in `sub`; a count of bytes wraps at 2 ^ 64.
--
-- Not modelled: the modification times of directories, which the files written after them change
-- again; the lines of the log but for the access log; that the limits on reading delay it; the
-- port that the agent listens on; the splitting of a command line into flags and values; contexts
-- other than the one of the server command and the one that ends a wait; responses that the
-- network loses after the agent has acted (the client may get none only if it sends a body that
-- breaks off); and two whole updates that run at the same time: a method runs to its end before
-- the next one, but for the goroutines above, the steps of Downloader/Progress and the migrations
-- of Photondata/Exclusion.
pub mod Base
pub mod Client
pub mod Cmd
pub mod Downloader
pub mod Examples
pub mod Logging
pub mod Metrics
pub mod Os
pub mod Photon
pub mod Photondata
pub mod Server
pub mod Unarchiver
pub mod Updater
pub mod World
