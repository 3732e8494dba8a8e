-- ===== src/Query/Transport/App.antt =====
-- graph_query_api/transport.py: `build_app`, the routes behind the gate. Starlette, which finds the endpoint of
-- a request among the routes, and the MCP session manager, which makes the endpoint of /mcp, are parameters.
use graphify_daemon_portfoli.Prelude.{
  ℕ, ◌≡◌, ◌≢◌, refl, ap, Option, none, some, List, [], ◌∷◌, ◌++◌, String, str_eq, if◌then◌else◌,
}
use graphify_daemon_portfoli.Prelude.Exec.{Exec}
use graphify_daemon_portfoli.Prelude.Text.{Text, codes, show}
use graphify_daemon_portfoli.Query.Transport.{Headers, Scope, Reply, call, run}
use graphify_daemon_portfoli.Query.Transport.Gate.{Presents, gate_iff}

pub record Route (E : Type 0) : Type 0 where
  pub path : String
  pub endpoint : E

-- `f"{host}:{port}"`
abbrev with_port : String → ℕ → Text
with_port host port = codes host ++ (codes ":" ++ show port)

-- `sorted(allowed_hosts)`: a name stands before its form with a port, and digits before letters.
unfoldable pub allowed_hosts : ℕ → List Text
allowed_hosts port =
    codes "127.0.0.1"
    ∷ with_port "127.0.0.1" port
    ∷ codes "localhost"
    ∷ with_port "localhost" port
    ∷ []

-- The endpoint of the first route with this path.
unfoldable pub find_route : {E : Type 0} → String → List (Route E) → Option E
find_route path [] = none
find_route path (route ∷ routes) =
    let rest = find_route path routes in
    if str_eq route.path path then some route.endpoint else rest

-- The gate's 401, or the endpoint that the router finds; `none` is its own refusal.
pub data Answer (E : Type 0) : Type 0 where
  refused : Answer E
  routed : Option E → Answer E

module _ {E : Type 0} (manager : List Text → E) where
  -- `routes`: /mcp first, then health and metrics
  unfoldable pub routes_of : ℕ → List (Route E) → List (Route E)
  unfolding allowed_hosts
  routes_of port extra_routes =
      record { path = "/mcp"; endpoint = manager (allowed_hosts port) } ∷ extra_routes

module _ {E : Type 0} (manager : List Text → E)
    (starlette : List (Route E) → Scope → Option E) where
  abbrev behind : Reply → List (Route E) → Scope → Answer E
  behind Reply.unauthorized routes scope = refused
  behind Reply.forwarded routes scope = routed (starlette routes scope)

  -- `build_app`: what the application does with a request
  unfoldable pub build_app : Text → ℕ → List (Route E) → Scope → Answer E
  unfolding routes_of
  build_app api_key port extra_routes scope =
      behind (call api_key scope) (routes_of manager port extra_routes) scope

  -- `run`, with the application that uvicorn serves
  unfoldable pub run_app :
      {S : Type 0}
      → ((Scope → Answer E) → Exec S Unit)
      → String
      → ℕ
      → Option Text
      → List (Route E)
      → Exec S Unit
  unfolding build_app
  run_app uvicorn host port api_key extra_routes =
      run (λ key. uvicorn (build_app key port extra_routes)) host api_key

  -- A router gives a request only the endpoint of a route with its path.
  abbrev pub IsRouter : Type 0
  IsRouter =
      (routes : List (Route E)) (scope : Scope) (e : E)
      → starlette routes scope ≡ some e
      → find_route scope.path routes ≡ some e

  behind-endpoint :
      (reply : Reply) (routes : List (Route E)) (scope : Scope) (e : E)
      → behind reply routes scope ≡ routed (some e)
      → (reply ≡ Reply.forwarded) × (starlette routes scope ≡ some e)
  behind-endpoint Reply.forwarded routes scope e h = (refl, cc)
  behind-endpoint Reply.unauthorized routes scope e h = cc

  behind-refused :
      (reply : Reply) (routes : List (Route E)) (scope : Scope)
      → reply ≢ Reply.forwarded
      → behind reply routes scope ≡ refused
  behind-refused Reply.forwarded routes scope h = absurd (h refl)
  behind-refused Reply.unauthorized routes scope h = refl

  -- For a key that is not empty, whatever the extra routes: an HTTP request that gets an endpoint presents
  -- the key, and the endpoint is that of the first route with its path, if the router gives a request
  -- only endpoints of its path; a request that does not present the key is refused, and one that does is
  -- given what the router says.
  pub app_lem :
      (api_key : Text) (port : ℕ) (extra_routes : List (Route E)) (path : String) (hs : Headers)
      → api_key ≢ []
      → IsRouter
      → let scope : Scope = record { kind = "http"; path = path; headers = some hs } in
        ((e : E)
          → build_app api_key port extra_routes scope ≡ routed (some e)
          → Presents api_key hs × (find_route path (routes_of manager port extra_routes) ≡ some e))
        × (¬ Presents api_key hs → build_app api_key port extra_routes scope ≡ refused)
        × (Presents api_key hs
            → build_app api_key port extra_routes scope
              ≡ routed (starlette (routes_of manager port extra_routes) scope))
  unfolding build_app
  app_lem api_key port extra_routes path hs n router =
      let scope : Scope = record { kind = "http"; path = path; headers = some hs } in
      let gate = gate_iff api_key path hs n in
      let routes = routes_of manager port extra_routes in
      (
        λ e h.
            let (passed, found) = behind-endpoint (call api_key scope) routes scope e h in
            (gate.0 passed, router routes scope e found),
        λ absent.
            behind-refused (call api_key scope) routes scope (λ passed. absent (gate.0 passed)),
        λ present. ap (λ reply. behind reply routes scope) (gate.1 present),
      )
