-- ===== src/Tests/Access.antt =====
-- The API-key gate at concrete requests.
use graphify_daemon_portfoli.Prelude.{
  ◌≡◌, ◌≢◌, refl, Option, some, List, [], String, ◌∷◌, ℕ_discrete, String-discrete,
}
use graphify_daemon_portfoli.Prelude.Text.{codes}
use graphify_daemon_portfoli.Query.Transport.{
  Headers, Text-discrete, single_header, partition, strip, bearer_token, provided_key, Reply, Scope,
  call,
}
use graphify_daemon_portfoli.Query.Transport.Gate.{Presents}
use graphify_daemon_portfoli.Query.Transport.App.{
  Route, find_route, routes_of, build_app, routed, refused, app_lem,
}

-- A request with a bearer token, its scheme in capitals and the token between spaces.
abbrev bearer : Headers
bearer = (codes "accept", codes "a") ∷ (codes "authorization", codes "BEARER  k1 ") ∷ []

-- A request that repeats its key.
abbrev repeated : Headers
repeated = (codes "x-api-key", codes "k1") ∷ (codes "x-api-key", codes "k1") ∷ []

bearer_passes :
    call (codes "k1") (record { kind = "http"; path = "/mcp"; headers = some bearer })
    ≡ Reply.forwarded
unfolding call provided_key single_header bearer_token partition strip Text-discrete ℕ_discrete
    String-discrete
bearer_passes = refl

repeated_fails :
    call (codes "k1") (record { kind = "http"; path = "/mcp"; headers = some repeated })
    ≡ Reply.unauthorized
unfolding call provided_key single_header bearer_token partition strip Text-discrete ℕ_discrete
    String-discrete
repeated_fails = refl

k1_not_empty : codes "k1" ≢ []
k1_not_empty h = cc

abbrev bearer_health : Scope
bearer_health = record { kind = "http"; path = "/health"; headers = some bearer }

-- A router that finds the first route of the path.
abbrev router : List (Route String) → Scope → Option String
router routes scope = find_route scope.path routes

abbrev health : Route String
health = record { path = "/health"; endpoint = "health" }

app_lem_example :
    ((e : String)
      → build_app (λ hosts. "mcp") router (codes "k1") 8787 (health ∷ []) bearer_health
        ≡ routed (some e)
      → Presents (codes "k1") bearer
        × (find_route "/health" (routes_of (λ hosts. "mcp") 8787 (health ∷ [])) ≡ some e))
    × (¬ Presents (codes "k1") bearer
        → build_app (λ hosts. "mcp") router (codes "k1") 8787 (health ∷ []) bearer_health ≡ refused)
    × (Presents (codes "k1") bearer
        → build_app (λ hosts. "mcp") router (codes "k1") 8787 (health ∷ []) bearer_health
          ≡ routed (router (routes_of (λ hosts. "mcp") 8787 (health ∷ [])) bearer_health))
app_lem_example =
    app_lem (λ hosts. "mcp") router (codes "k1") 8787 (health ∷ []) "/health" bearer k1_not_empty
      (λ routes scope e h. h)
