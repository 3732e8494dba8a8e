-- ===== src/Tests/Validation.antt =====
-- A validator for the schemas of the tools: it decides whether arguments conform.
use graphify_daemon_portfoli.Prelude.{
  ℕ, ◌≡◌, inl, inr, dec_le, Option, none, some, List, [], ◌∷◌, String, String-discrete, length, All,
}
use graphify_daemon_portfoli.Prelude.Dict.{lookup}
use graphify_daemon_portfoli.Query.Tools.{Json, Arguments}
use graphify_daemon_portfoli.Query.Tools.Schema.{
  Kind, any_text, one_of, integer_in, text_list, flag, Tool, IsAmong, IsAtMost, Admits, IsPresent,
  IsThere, Conforms, Validator,
}

abbrev both : {A B : Type 0} → Dec A → Dec B → Dec (A × B)
both (yes a) (yes b) = yes (a, b)
both (yes a) (no n) = no (λ h. n h.1)
both (no n) b = no (λ h. n h.0)

abbrev is_among : (s : String) (l : List String) → Dec (IsAmong s l)
is_among s [] = no (λ h. h)
is_among s (t ∷ ts) = elim (String-discrete s t) [
  | yes e ↦ yes (inl e)
  | no n ↦ elim (is_among s ts) [
    | yes h ↦ yes (inr h)
    | no k ↦ no (λ h. elim h [ inl e ↦ n e | inr i ↦ k i ])
  ]
]

abbrev is_at_most : (n : ℕ) (m : Option ℕ) → Dec (IsAtMost n m)
is_at_most n none = yes tt
is_at_most n (some m) = dec_le n m

abbrev admits : (k : Kind) (v : Json) → Dec (Admits k v)
admits any_text Json.null = no (λ h. h)
admits any_text (Json.boolean b) = no (λ h. h)
admits any_text (Json.integer n) = no (λ h. h)
admits any_text (Json.text s) = yes tt
admits any_text (Json.texts ss) = no (λ h. h)
admits any_text (Json.other s) = no (λ h. h)
admits (one_of l) Json.null = no (λ h. h)
admits (one_of l) (Json.boolean b) = no (λ h. h)
admits (one_of l) (Json.integer n) = no (λ h. h)
admits (one_of l) (Json.text s) = is_among s l
admits (one_of l) (Json.texts ss) = no (λ h. h)
admits (one_of l) (Json.other s) = no (λ h. h)
admits (integer_in lo hi) Json.null = no (λ h. h)
admits (integer_in lo hi) (Json.boolean b) = no (λ h. h)
admits (integer_in lo hi) (Json.integer n) = both (dec_le lo n) (is_at_most n hi)
admits (integer_in lo hi) (Json.text s) = no (λ h. h)
admits (integer_in lo hi) (Json.texts ss) = no (λ h. h)
admits (integer_in lo hi) (Json.other s) = no (λ h. h)
admits (text_list most) Json.null = no (λ h. h)
admits (text_list most) (Json.boolean b) = no (λ h. h)
admits (text_list most) (Json.integer n) = no (λ h. h)
admits (text_list most) (Json.text s) = no (λ h. h)
admits (text_list most) (Json.texts ss) = dec_le (length ss) most
admits (text_list most) (Json.other s) = no (λ h. h)
admits flag Json.null = no (λ h. h)
admits flag (Json.boolean b) = yes tt
admits flag (Json.integer n) = no (λ h. h)
admits flag (Json.text s) = no (λ h. h)
admits flag (Json.texts ss) = no (λ h. h)
admits flag (Json.other s) = no (λ h. h)

abbrev is_present : (k : Kind) (o : Option Json) → Dec (IsPresent k o)
is_present k none = yes tt
is_present k (some v) = admits k v

abbrev there : (o : Option Json) → Dec (IsThere o)
there none = no (λ h. h)
there (some v) = yes tt

abbrev every :
    {A : Type 0} {P : A → Type 0} → ((x : A) → Dec (P x)) → (xs : List A) → Dec (All P xs)
every f [] = yes tt
every f (x ∷ xs) = both (f x) (every f xs)

abbrev conforms : (tool : Tool) (arguments : Arguments) → Dec (Conforms tool arguments)
conforms tool arguments =
    elim (both (every (λ key. there (lookup String-discrete key arguments)) tool.required)
      (every (λ p. is_present p.kind (lookup String-discrete p.name arguments)) tool.properties)) [
        | yes h ↦ yes (record { has_required = h.0; admitted = h.1 })
        | no n ↦ no (λ c. n (c.has_required, c.admitted))
      ]

abbrev message : {A : Type 0} → Dec A → Option String
message (yes h) = none
message (no n) = some "is not valid"

abbrev message-sound : {A : Type 0} (d : Dec A) → message d ≡ none → A
message-sound (yes h) e = h
message-sound (no n) e = absurd (cc)

abbrev pub validator : Validator
validator = record {
  validate = λ tool arguments. message (conforms tool arguments);
  sound = λ tool arguments e. message-sound (conforms tool arguments) e;
}
