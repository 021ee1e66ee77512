-- ===== src/Client/Agent.antt =====
-- The client of internal/client/photonagent before the agent of internal/server: a request that
-- reaches the agent's URL is served by its handlers, and the goroutine that a handler starts is
-- kept until it runs.
use photon_container.Base.{
  ◌≡◌, ap, Bool, String, ◌<>◌, Option, none, some, List, [], ◌∷◌, ◌++◌, ◌==◌, arith, if◌then◌else◌,
}
use photon_container.Base.Time.{Time}
use Prim.Native.Char.{code}
use photon_container.Client.Requests.{
  Request, Unmarshalled, invalid, object, Exchange, no_response, response, Net,
}
use photon_container.Photondata.Archive.{Archive}
use photon_container.Server.Handlers.{Answer, Body, empty, text, status_object, serve}
use photon_container.Updater.Entry.{Updater}
use package.text.Mathlib.TextLemmas.{nil-append, cons-append}
use photon_container.World.{World, M}

-- What the second text has behind the first.
unfoldable pub strip_text : String → String → Option String
strip_text String.[] t = some t
strip_text (String.◌∷◌ c s) String.[] = none
strip_text (String.◌∷◌ c s) (String.◌∷◌ d t) =
    let rest = strip_text s t in if code c == code d then rest else none

pub strip_text-append : (s t : String) → strip_text s (s <> t) ≡ some t
unfolding strip_text
strip_text-append String.[] t = ap some (nil-append t)
strip_text-append (String.◌∷◌ c s) t =
    rw (cons-append c s t) (ground (arith, strip_text-append s t))

pub record Agent : Type 0 where
  pub world : World
  pub goroutines : List (M (Unit {0}))

abbrev pub next_of : List (M (Unit {0})) → Agent → Agent
next_of [] a = a
next_of (go ∷ rest) a = record { world = (go a.world).1; goroutines = rest }

-- The goroutine that has waited longest runs; its error is only logged.
unfoldable pub run_next : Agent → Agent
run_next a = next_of a.goroutines a

abbrev pub kept_goroutine : Option (M (Unit {0})) → List (M (Unit {0}))
kept_goroutine none = []
kept_goroutine (some go) = go ∷ []

module _ (u : Updater) (archive : Archive) (metrics : World → Answer × World)
    (format : Time → String) (base_url : String) where
  -- What the client gets of a body. The only text that the agent sends is no JSON; the time is
  -- formatted by RFC 3339.
  abbrev pub received : Body → Unmarshalled
  received empty = invalid
  received (text _) = invalid
  received (status_object s version) = object (record { state = s; version = format version })

  -- A body that breaks off is an error of the client, whatever the agent answers.
  abbrev exchanged : Bool → Answer × World → List (M (Unit {0})) → Exchange × Agent
  exchanged broken ((resp, go), v) waiting = (
    (if broken then no_response else response resp.status (some (received resp.body))),
    record { world = v; goroutines = waiting ++ kept_goroutine go },
  )

  abbrev routed : Option String → Request → Agent → Exchange × Agent
  routed none r a = (no_response, a)
  routed (some path) r a =
      exchanged r.body.broken
        (serve u archive metrics r.method ("/" <> path) r.query r.body a.world) a.goroutines

  -- An exchange with the agent that is reached at the URL.
  unfoldable pub agent_net : Net Agent
  agent_net r a = routed (strip_text base_url r.url) r a
