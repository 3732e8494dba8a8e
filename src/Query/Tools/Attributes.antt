-- ===== src/Query/Tools/Attributes.antt =====
-- graph_query_api/tools.py: how the handlers read an attribute or an argument.
use graphify_daemon_portfoli.Prelude.{
  Bool, true, false, not, [], ◌∷◌, String, String-discrete, ◌==◌, if◌then◌else◌,
}
use graphify_daemon_portfoli.Prelude.Dict.{lookup}
use graphify_daemon_portfoli.Prelude.Exec.{Result, ok, raise, key_error, attribute_error, or_raise}
use graphify_daemon_portfoli.Prelude.Text.{Text, Value, codes, show, starts_with}
use graphify_daemon_portfoli.Graphify.{Attrs, Graphify}
use graphify_daemon_portfoli.Query.Tools.{Json, text, Reader}
use mathlib.Core.Option

-- `str(value)`
abbrev pub str : Value → Text
str Value.null = codes "None"
str (Value.number n) = show n
str (Value.text s) = codes s

-- `d.get(key, default)`
abbrev pub get : String → Value → Attrs → Value
get key default d = Option.get_or (lookup String-discrete key d) default

abbrev pub is_empty : Text → Bool
is_empty [] = true
is_empty (c ∷ s) = false

-- The truth of a value.
abbrev pub truthy : Value → Bool
truthy Value.null = false
truthy (Value.number n) = not (n == 0)
truthy (Value.text s) = not (is_empty (codes s))

-- `a or b`
abbrev pub or_else : Value → Value → Value
or_else a b = if truthy a then a else b

-- `pattern in text`
unfoldable pub contains : Text → Text → Bool
contains pattern [] = is_empty pattern
contains pattern (c ∷ s) =
    let rest = contains pattern s in if starts_with (c ∷ s) pattern then true else rest

module _ (g : Graphify) (r : Reader g) where
  -- `value.lower()` of an attribute and of an argument
  abbrev pub lower_value : Value → Result Text
  lower_value (Value.text s) = ok (r.lower (codes s))
  lower_value v = raise attribute_error

  abbrev pub lower_argument : Json → Result Text
  lower_argument (text s) = ok (r.lower (codes s))
  lower_argument v = raise attribute_error

  -- `sanitize_label(value)`
  abbrev pub sanitize : Value → Result Text
  sanitize (Value.text s) = ok (r.sanitize_label (codes s))
  sanitize v = r.sanitize_value v

  -- `sanitize_label(str(value))`
  abbrev pub clean : Value → Text
  clean v = r.sanitize_label (str v)

  -- `graph.nodes[n]`
  abbrev pub node_data : g.Graph → String → Result Attrs
  node_data graph n = or_raise key_error (lookup String-discrete n (r.nodes graph))
