-- ===== src/Query/Transport/Gate.antt =====
-- graph_query_api/transport.py: who passes the API-key gate.
use graphify_daemon_portfoli.Prelude.{
  String, ℕ, ◌≡◌, ◌≢◌, refl, ap, sym, ◌∙◌, ◌⊎◌, ◌↔◌, inl, inr, arith, true, false, Option, none,
  some, List, [], ◌∷◌, ◌++◌, ◌==◌, Option-cases, Bool-cases,
}
use graphify_daemon_portfoli.Prelude.Text.{Text, codes}
use graphify_daemon_portfoli.Query.Transport.{
  Headers, Text-discrete, matches, only, single_header, partition, lower, strip, bearer_token,
  provided_key, Reply, call, judge, is_nil,
}

abbrev pub IsAbsent : Text → Headers → Type 0
IsAbsent name [] = Unit
IsAbsent name ((k, v) ∷ hs) = (k ≢ name) × IsAbsent name hs

-- The header stands exactly once, with this value.
abbrev pub Carries : Text → Text → Headers → Type 0
Carries name v [] = ⊥
Carries name v ((k, w) ∷ hs) =
    ((k ≡ name) × (w ≡ v) × IsAbsent name hs) ⊎ ((k ≢ name) × Carries name v hs)

matches_none : (name : Text) (hs : Headers) → IsAbsent name hs → matches name hs ≡ []
matches_none name [] h = refl
matches_none name ((k, v) ∷ hs) h = ground (arith, matches_none name hs h.1)

none_matches : (name : Text) (hs : Headers) → matches name hs ≡ [] → IsAbsent name hs
none_matches name [] h = tt
none_matches name ((k, v) ∷ hs) h = elim (Text-discrete k name) [
  | yes e ↦ absurd (ground arith)
  | no n ↦ (n, none_matches name hs (ground arith))
]

carried : (name v : Text) (hs : Headers) → Carries name v hs → matches name hs ≡ v ∷ []
carried name v [] h = absurd h
carried name v ((k, w) ∷ hs) (inl (e, same, rest)) =
    ground (arith, e, same, matches_none name hs rest)
carried name v ((k, w) ∷ hs) (inr (n, rest)) = ground (arith, n, carried name v hs rest)

carries : (name v : Text) (hs : Headers) → matches name hs ≡ v ∷ [] → Carries name v hs
carries name v [] h = absurd (ground arith)
carries name v ((k, w) ∷ hs) h = elim (Text-discrete k name) [
  | yes e ↦ inl (e, ground arith, none_matches name hs (ground arith))
  | no n ↦ inr (n, carries name v hs (ground arith))
]

only-some : (vs : List Text) (v : Text) → only vs ≡ some v → vs ≡ v ∷ []
only-some [] v h = absurd (ground arith)
only-some (w ∷ []) v h = ground arith
only-some (w ∷ u ∷ vs) v h = absurd (ground arith)

-- A header's value is found exactly when the header stands once, with that value: a repeated header is
-- treated as an absent one.
pub single_header_iff :
    (name v : Text) (hs : Headers) → (single_header hs name ≡ some v) ↔ Carries name v hs
unfolding single_header
single_header_iff name v hs =
    (λ h. carries name v hs (only-some (matches name hs) v h), λ c. ap only (carried name v hs c))

-- No byte of the text is the separator.
abbrev pub HasNoByte : ℕ → Text → Type 0
HasNoByte sep [] = Unit
HasNoByte sep (c ∷ s) = ((c == sep) ≡ false) × HasNoByte sep s

partition-append : (sep : ℕ) (a b : Text) → HasNoByte sep a → partition sep (a ++ sep ∷ b) ≡ (a, b)
unfolding partition
partition-append sep [] b h = ground arith
partition-append sep (c ∷ a) b h = ground (arith, h.0, partition-append sep a b h.1)

partition_here : (sep c : ℕ) (s : Text) → (c == sep) ≡ true → partition sep (c ∷ s) ≡ ([], s)
unfolding partition
partition_here sep c s h = ground arith

partition_later :
    (sep c : ℕ) (s : Text)
    → (c == sep) ≡ false
    → partition sep (c ∷ s) ≡ (c ∷ (partition sep s).0, (partition sep s).1)
unfolding partition
partition_later sep c s h = ground arith

partition_empty : (sep : ℕ) → is_nil (partition sep []).1 ≡ false → ⊥
unfolding partition
partition_empty sep h = ground arith

append-partition :
    (sep : ℕ) (s : Text)
    → is_nil (partition sep s).1 ≡ false
    → (s ≡ (partition sep s).0 ++ sep ∷ (partition sep s).1) × HasNoByte sep (partition sep s).0
append-partition sep [] h = absurd (partition_empty sep h)
append-partition sep (c ∷ s) h = elim (Bool-cases (c == sep)) [
  | inl here ↦ rw (partition_here sep c s here) (ground arith, tt)
  | inr later ↦
      let rest = append-partition sep s (ground (arith, partition_later sep c s later)) in
      rw (partition_later sep c s later) (ap (λ t. c ∷ t) rest.0, (later, rest.1))
]

-- A bearer token of an `authorization` value: what follows its first space, stripped, after a scheme that
-- is "bearer" in any case.
abbrev pub IsBearer : Text → Text → Type 0
IsBearer authorization key =
    (scheme : Text) × (token : Text) × (authorization ≡ scheme ++ 32 ∷ token)
    × HasNoByte 32 scheme
    × (lower scheme ≡ codes "bearer")
    × (strip token ≡ key)

strip_nil : (token : Text) → is_nil token ≡ true → strip token ≡ []
unfolding strip
strip_nil [] h = refl
strip_nil (c ∷ token) h = cc

bearer_token-IsBearer :
    (authorization key : Text) → bearer_token authorization ≡ some key → IsBearer authorization key
unfolding bearer_token
bearer_token-IsBearer authorization key e =
    let p = partition 32 authorization in
    elim (Text-discrete (lower p.0) (codes "bearer")) [
      | no other ↦ absurd (ground arith)
      | yes same ↦ elim (Bool-cases (is_nil p.1)) [
        | inl empty ↦ absurd (ground arith)
        | inr token ↦
            let cut = append-partition 32 authorization token in
            (p.0, p.1, cut.0, cut.1, same, ground arith)
      ]
    ]

bearer_to :
    (authorization key : Text)
    → key ≢ []
    → IsBearer authorization key
    → bearer_token authorization ≡ some key
unfolding bearer_token
bearer_to authorization key h (scheme, token, e, clean, same, stripped) =
    elim (Bool-cases (is_nil token)) [
      | inl empty ↦ absurd (h (sym stripped ∙ strip_nil token empty))
      | inr full ↦
          rw (e, partition-append 32 scheme token clean) (ground (arith, same, stripped, full))
    ]

-- Who presents the key: exactly one `x-api-key` header that is the key; or, if `x-api-key` does not stand
-- exactly once, exactly one `authorization` header with the key as its bearer token.
abbrev pub Presents : Text → Headers → Type 0
Presents key hs =
    Carries (codes "x-api-key") key hs
    ⊎ (((v : Text) → Carries (codes "x-api-key") v hs → ⊥)
        × ((authorization : Text) × Carries (codes "authorization") authorization hs
            × IsBearer authorization key))

bearer_absent : (key : Text) → bearer_token [] ≡ some key → ⊥
unfolding bearer_token partition
bearer_absent key e = ground arith

provided_key-Presents : (key : Text) (hs : Headers) → provided_key hs ≡ some key → Presents key hs
unfolding provided_key
provided_key-Presents key hs e = elim (Option-cases (single_header hs (codes "x-api-key"))) [
  | inr (k, found) ↦ inl ((single_header_iff (codes "x-api-key") key hs).0 (ground (arith, found)))
  | inl missing ↦ elim (Option-cases (single_header hs (codes "authorization"))) [
    | inl absent ↦ absurd (bearer_absent key (ground (arith, missing, absent)))
    | inr (a, found) ↦ inr (
      λ v c. ground (arith, (single_header_iff (codes "x-api-key") v hs).1 c, missing),
      (
        a,
        (single_header_iff (codes "authorization") a hs).0 found,
        bearer_token-IsBearer a key (ground (arith, missing, found)),
      ),
    )
  ]
]

provided_to : (key : Text) (hs : Headers) → key ≢ [] → Presents key hs → provided_key hs ≡ some key
unfolding provided_key
provided_to key hs h (inl c) = ground (arith, (single_header_iff (codes "x-api-key") key hs).1 c)
provided_to key hs h (inr (none_such, (a, c, b))) =
    elim (Option-cases (single_header hs (codes "x-api-key"))) [
      | inr (k, found) ↦ absurd (none_such k ((single_header_iff (codes "x-api-key") k hs).0 found))
      | inl missing ↦ ground (
        arith,
        missing,
        (single_header_iff (codes "authorization") a hs).1 c,
        bearer_to a key h b,
      )
    ]

-- For a key that is not empty, an HTTP request reaches the application exactly when it presents the key;
-- every other HTTP request is answered with 401.
pub gate_iff :
    (expected : Text) (path : String) (hs : Headers)
    → expected ≢ []
    → (call expected (record { kind = "http"; path = path; headers = some hs }) ≡ Reply.forwarded)
      ↔ Presents expected hs
unfolding call
gate_iff expected path hs h = (
  λ e. provided_key-Presents expected hs (judged (provided_key hs) (ground arith)),
  λ p. ground (arith, provided_to expected hs h p),
)
  where
    judged : (o : Option Text) → judge expected o ≡ Reply.forwarded → o ≡ some expected
    judged none e = cc
    judged (some key) e = elim (Text-discrete key expected) [
      | yes same ↦ ap some same
      | no other ↦ absurd (ground arith)
    ]
