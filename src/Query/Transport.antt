-- ===== src/Query/Transport.antt =====
-- graph_query_api/transport.py: the checks of the configuration and the API-key gate. Bytes are a list of
-- numbers; header names arrive in lower case, as ASGI has it.
pub mod Gate
pub mod App
use graphify_daemon_portfoli.Prelude.{
  ℕ, ◌+◌, Bool, true, false, not, ◌&&◌, ◌||◌, Option, none, some, List, [], ◌∷◌, String, ℕ_discrete,
  String-discrete, leb, ◌==◌, if◌then◌else◌, ite,
}
use graphify_daemon_portfoli.Prelude.Exec.{
  Result, Exec, ok, raise, configuration_error, lift, ◌>>=◌, ◌>>◌,
}
use graphify_daemon_portfoli.Prelude.Text.{Text, codes}

abbrev pub Headers : Type 0
Headers = List (Text × Text)

unfoldable pub Text-discrete : Discrete Text
Text-discrete = hlevel ℕ_discrete

-- `validate_host`
unfoldable pub validate_host : String → Result (Unit {0})
validate_host host =
    ite (String-discrete host "127.0.0.1") (ok tt)
      (ite (String-discrete host "localhost") (ok tt) (raise configuration_error))

-- `validate_api_key`
unfoldable pub validate_api_key : Option Text → Result Text
validate_api_key none = raise configuration_error
validate_api_key (some []) = raise configuration_error
validate_api_key (some (c ∷ key)) = ok (c ∷ key)

abbrev pub matches : Text → Headers → List Text
matches name [] = []
matches name ((k, v) ∷ hs) =
    let rest = matches name hs in ite (Text-discrete k name) (v ∷ rest) rest

abbrev only : List Text → Option Text
only [] = none
only (v ∷ []) = some v
only (v ∷ w ∷ vs) = none

-- `_single_header`
unfoldable pub single_header : Headers → Text → Option Text
single_header raw_headers name = only (matches name raw_headers)

-- `value.partition(sep)`, without the separator: what stands before the first one, and after it
unfoldable pub partition : ℕ → Text → Text × Text
partition sep [] = ([], [])
partition sep (c ∷ s) =
    let (before, after) = partition sep s in if c == sep then ([], s) else (c ∷ before, after)

-- `value.lower()`
abbrev pub lower : Text → Text
lower [] = []
lower (c ∷ s) = (if leb 65 c && leb c 90 then c + 32 else c) ∷ lower s

abbrev is_space : ℕ → Bool
is_space c = c == 32 || (leb 9 c && leb c 13)

abbrev pub is_nil : Text → Bool
is_nil [] = true
is_nil (c ∷ s) = false

abbrev lstrip : Text → Text
lstrip [] = []
lstrip (c ∷ s) = let rest = lstrip s in if is_space c then rest else c ∷ s

abbrev rstrip : Text → Text
rstrip [] = []
rstrip (c ∷ s) = let rest = rstrip s in if is_space c && is_nil rest then [] else c ∷ rest

-- `value.strip()`
unfoldable pub strip : Text → Text
strip s = rstrip (lstrip s)

-- The token of an `authorization` value, if its scheme is "bearer".
unfoldable pub bearer_token : Text → Option Text
bearer_token authorization =
    let (scheme, token) = partition 32 authorization in
    ite (Text-discrete (lower scheme) (codes "bearer"))
      (if is_nil token then none else some (strip token)) none

-- `provided`
unfoldable pub provided_key : Headers → Option Text
provided_key raw_headers = elim (single_header raw_headers (codes "x-api-key")) [
  | some key ↦ some key
  | none ↦ elim (single_header raw_headers (codes "authorization")) [
    | none ↦ bearer_token []
    | some authorization ↦ bearer_token authorization
  ]
]

pub record Scope : Type 0 where
  pub kind : String
  pub path : String
  pub headers : Option Headers

-- What the middleware does with a request: it calls the application, or answers 401.
pub data Reply : Type 0 where
  forwarded unauthorized : Reply

abbrev headers_of : Option Headers → Headers
headers_of none = []
headers_of (some hs) = hs

abbrev judge : Text → Option Text → Reply
judge expected none = unauthorized
judge expected (some key) = ite (Text-discrete key expected) forwarded unauthorized

-- `_ApiKeyMiddleware.__call__`
unfoldable pub call : Text → Scope → Reply
call expected scope =
    ite (String-discrete scope.kind "http")
      (judge expected (provided_key (headers_of scope.headers))) forwarded

-- `run`: `serve` is what `build_app` and `uvicorn.run` do with the validated key.
unfoldable pub run : {S : Type 0} → (Text → Exec S Unit) → String → Option Text → Exec S Unit
run serve host api_key = do
  lift (validate_host host)
  key ← lift (validate_api_key api_key)
  serve key
