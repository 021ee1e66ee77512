-- ===== src/Client/Requests.antt =====
-- internal/client/photonagent/client.go. What the HTTP client makes of a request is a parameter,
-- and acts on a state of its own, that of the other side. The progress of an upload only logs, as
-- long as it does not block (Client/Progress).
use photon_container.Base.{
  String, ◌<>◌, false, ◌==◌, ℕ, Option, none, some, List, [], with_slash, if◌then◌else◌,
}
use photon_container.Client.Options.{UploadOption, init_upload_options, to_query}
use photon_container.Os.Calls.{open_file, call, untouched}
use photon_container.Os.Files.{FilePath, Reader}
use photon_container.Server.Handlers.{Values}
use photon_container.World.{
  World, M, Result, ok, err, failed, wrap, Method, pure, wrapped, ◌>>=◌, ◌>>◌,
}

pub record Request : Type 0 where
  pub method : Method
  pub url : String
  pub query : Values
  pub body : Reader

pub record MigrateStatusResponse : Type 0 where
  pub state : String
  pub version : String

-- What `json.Unmarshal` into a `*MigrateStatusResponse` makes of a body.
pub data Unmarshalled : Type 0 where
  invalid null : Unmarshalled
  object : MigrateStatusResponse → Unmarshalled

-- What an exchange comes to: a URL that makes no request, an error, or a response, whose body may
-- fail to be read.
pub data Exchange : Type 0 where
  bad_request no_response : Exchange
  response : (status : ℕ) (body : Option Unmarshalled) → Exchange

-- The HTTP client, with what stands at the other end.
abbrev pub Net : Type 0 → Type 0
Net S = Request → S → Exchange × S

pub record Client : Type 0 where
  pub base_url : String

-- `NewClient`
unfoldable pub new_client : String → Client
unfolding with_slash
new_client base_url = record { base_url = with_slash base_url }

abbrev pub no_body : Reader
no_body = record { content = []; broken = false }

-- The rest of `MigrateStart`, from the answer on.
abbrev pub start_answered : Exchange → Result (Unit {0})
start_answered bad_request = err (failed "request")
start_answered no_response = err (failed "response")
start_answered (response status none) =
    err (wrap "photonagent.Client.MigrateStart: failed to read response body" (failed "read"))
start_answered (response status (some _)) =
    if status == 200
    then ok tt
    else err (failed "photonagent.Client.MigrateStart: unexpected status code")

abbrev parsed_status : Unmarshalled → Result (Option MigrateStatusResponse)
parsed_status invalid =
    err
      (wrap "photonagent.Client.WaitForMigrate: failed to unmarshal response body" (failed "json"))
parsed_status null = ok none
parsed_status (object r) = ok (some r)

-- The rest of `MigrateStatus`, from the answer on. Its result is a pointer, which JSON's null makes
-- nil.
abbrev pub status_answered : Exchange → Result (Option MigrateStatusResponse)
status_answered bad_request = err (failed "request")
status_answered no_response = err (failed "response")
status_answered (response status none) =
    err (wrap "photonagent.Client.WaitForMigrate: failed to read response body" (failed "read"))
status_answered (response status (some body)) =
    if status == 200
    then parsed_status body
    else err (failed "photonagent.Client.WaitForMigrate: unexpected status code")

-- The rest of `ResetStatus`, from the answer on; an error of reading the body is ignored.
abbrev pub reset_answered : Exchange → Result (Unit {0})
reset_answered bad_request = err (failed "request")
reset_answered no_response =
    err (wrap "photonagent.Client.ResetStatus: failed to send request" (failed "response"))
reset_answered (response status _) =
    if status == 200
    then ok tt
    else err (failed "photonagent.Client.ResetStatus: unexpected status code")

-- The files of the client, and the other side.
abbrev pub Sides : Type 0 → Type 0
Sides S = World × S

abbrev pub open_archive : FilePath → M Reader
open_archive path = do
  f ← wrapped "photonagent.Client.MigrateStart: failed to open" (open_file path)
  wrapped "photonagent.Client.MigrateStart: failed to get file size"
      (call "fstat" untouched (pure tt))
  pure f

module _ {S : Type 0} (net : Net S) (c : Client) where
  abbrev upload_request : List UploadOption → Reader → Request
  upload_request options body = record {
    method = Method.post;
    url = c.base_url <> "migrate/upload";
    query = to_query (init_upload_options options);
    body = body;
  }

  abbrev pub upload_opened :
      List UploadOption → Result Reader → World → S → Result (Unit {0}) × Sides S
  upload_opened options (err e) w s = (err e, (w, s))
  upload_opened options (ok body) w s =
      let (x, t) = net (upload_request options body) s in (start_answered x, (w, t))

  -- `MigrateStart`
  unfoldable pub migrate_start :
      FilePath → List UploadOption → Sides S → Result (Unit {0}) × Sides S
  migrate_start archive_path options (w, s) =
      let (r, v) = open_archive archive_path w in upload_opened options r v s

  -- `MigrateStatus`
  unfoldable pub migrate_status : S → Result (Option MigrateStatusResponse) × S
  migrate_status s =
      let (x, t) =
        net
          (record {
            method = Method.get;
            url = c.base_url <> "migrate/status";
            query = [];
            body = no_body;
          })
          s in
      (status_answered x, t)

  -- `ResetStatus`
  unfoldable pub reset_status : S → Result (Unit {0}) × S
  reset_status s =
      let (x, t) =
        net
          (record {
            method = Method.delete;
            url = c.base_url <> "migrate/status";
            query = [];
            body = no_body;
          })
          s in
      (reset_answered x, t)
