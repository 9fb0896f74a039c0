-- ===== src/Http/Routes.antt =====
-- `Handler` of internal/httpapi/server.go: the routes, and the handler of each.
pub mod Effects
use formation_web_analytics.Base.{
  ℕ, ℤ, ◌≡◌, refl, ◌⊎◌, inl, inr, Bool, true, false, ◌&&◌, ◌||◌, not, Option, none, some, List, [],
  ◌∷◌, Bool-cases, if◌then◌else◌, Bytes, codes, bytes_eq, bytes_eq→eq, subst, sym, arith,
}
use formation_web_analytics.Config.{Config}
use formation_web_analytics.Events.Metadata.{Request}
use formation_web_analytics.Elastic.Ping.{Authorization, ping}
use formation_web_analytics.Http.{
  Server, Services, Response, respond_ok, handle_options, handle_health, handle_ready,
}
use formation_web_analytics.Http.Collect.{handle_collect}
use formation_web_analytics.Http.Outcome.{IsSound, handle_collect-IsSound}

pub data Endpoint : Type 0 where
  open_api collect options health ready : Endpoint

pub record Pattern : Type 0 where
  pub method : Bytes
  pub path : Bytes
  pub endpoint : Endpoint

abbrev pattern_of : Bytes → Bytes → Endpoint → Pattern
pattern_of method path endpoint = record { method = method; path = path; endpoint = endpoint }

-- the calls of `HandleFunc`
abbrev pub patterns : List Pattern
patterns =
    pattern_of (codes "GET") (codes "/openapi.json") open_api
    ∷ pattern_of (codes "POST") (codes "/collect") collect
    ∷ pattern_of (codes "POST") (codes "/batch") collect
    ∷ pattern_of (codes "OPTIONS") (codes "/collect") options
    ∷ pattern_of (codes "OPTIONS") (codes "/batch") options
    ∷ pattern_of (codes "GET") (codes "/healthz") health
    ∷ pattern_of (codes "GET") (codes "/readyz") ready
    ∷ []

-- What `http.ServeMux` makes of a request: the endpoint of a pattern, or its own answer with status
-- 301, 405 or 404.
pub data Route : Type 0 where
  to : Endpoint → Route
  moved not_allowed not_found : Route

-- whether a method is one that a pattern is for; a pattern for GET is also one for HEAD
unfoldable pub is_method : Bytes → Bytes → Bool
unfolding bytes_eq
is_method wanted method =
    bytes_eq method wanted || bytes_eq wanted (codes "GET") && bytes_eq method (codes "HEAD")

unfoldable pub find_route : Bytes → Bytes → Bool → List Pattern → Route
unfolding is_method
find_route method path known [] = if known then not_allowed else not_found
find_route method path known (p ∷ ps) =
    if bytes_eq path p.path && is_method p.method method
    then to p.endpoint
    else find_route method path (known || bytes_eq path p.path) ps

-- `ServeMux`, on the escaped path of a request: `clean` is its `cleanPath`, and `unescape` what
-- it reads a path as
unfoldable pub route : (Bytes → Bytes) → (Bytes → Bytes) → Bytes → Bytes → Route
unfolding find_route
route clean unescape method path =
    if not (bytes_eq method (codes "CONNECT")) && not (bytes_eq (clean path) path)
    then moved
    else find_route method (unescape path) false patterns

-- an answer of the mux itself, with its status, or of a handler
pub data Answer : Type 0 where
  by_mux : ℕ → Answer
  handled : Response → Answer

module _ {W : Type 0} (sv : Services) (cfg : Config)
    (get : Bytes → Authorization → W → Option ℕ × W) where
  -- The handler of a route; `batcher_ready` is `batcher.Ready()`, and `w` the world of a ping.
  unfoldable pub handle : Route → Bool → Server → Request → ℕ → ℤ → W → Answer × Server
  unfolding handle_collect handle_options handle_health handle_ready ping
  handle (to open_api) batcher_ready s r clock now w =
      (handled (respond_ok 200 ((codes "Cache-Control", codes "public, max-age=300") ∷ [])), s)
  handle (to collect) batcher_ready s r clock now w =
      let (answer, s') = handle_collect sv cfg s r clock now in (handled answer, s')
  handle (to options) batcher_ready s r clock now w = (handled (handle_options sv.go cfg r), s)
  handle (to health) batcher_ready s r clock now w = (handled (handle_health sv.go cfg r), s)
  handle (to ready) batcher_ready s r clock now w =
      (handled (handle_ready sv.go cfg batcher_ready (ping get cfg w).0 r), s)
  handle moved batcher_ready s r clock now w = (by_mux 301, s)
  handle not_allowed batcher_ready s r clock now w = (by_mux 405, s)
  handle not_found batcher_ready s r clock now w = (by_mux 404, s)
