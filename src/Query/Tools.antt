-- ===== src/Query/Tools.antt =====
-- graph_query_api/tools.py: the arguments of a call, and what the tools use of other code.
pub mod Schema
pub mod Attributes
pub mod Nodes
pub mod Summaries
pub mod Handlers
pub mod Dispatch
use graphify_daemon_portfoli.Prelude.{
  ℕ, Bool, true, false, not, Option, none, some, List, [], ◌∷◌, String, String-discrete,
}
use graphify_daemon_portfoli.Prelude.Dict.{Dict, lookup}
use graphify_daemon_portfoli.Prelude.Exec.{Result, ok, raise, key_error, type_error, or_raise}
use graphify_daemon_portfoli.Prelude.Text.{Text, Value}
use graphify_daemon_portfoli.Graphify.{Attrs, Graphify}
use mathlib.Core.Option

-- A value of the decoded JSON arguments. An integral number that is not negative is an integer, and an
-- array of texts is `texts`; every other number, array or object is `other`, by its source text.
pub data Json : Type 0 where
  null : Json
  boolean : Bool → Json
  integer : ℕ → Json
  text : String → Json
  texts : List String → Json
  other : String → Json

abbrev pub Arguments : Type 0
Arguments = Dict String Json

-- `arguments[key]`
abbrev pub required : String → Arguments → Result Json
required key arguments = or_raise key_error (lookup String-discrete key arguments)

-- `arguments.get(key, default)`
abbrev pub optional : String → Json → Arguments → Json
optional key default arguments = Option.get_or (lookup String-discrete key arguments) default

-- `int(value)`, a text where one is needed, and a list of texts or None. The schemas admit no other value
-- than these; on any other the model raises.
abbrev pub int_of : Json → Result ℕ
int_of (integer n) = ok n
int_of v = raise type_error

abbrev pub text_of : Json → Result String
text_of (text s) = ok s
text_of v = raise type_error

abbrev pub texts_of : Json → Result (Option (List String))
texts_of null = ok none
texts_of (texts l) = ok (some l)
texts_of v = raise type_error

-- What `adapter.query_graph_text` is called with.
pub record Query : Type 0 where
  pub question : String
  pub mode : String
  pub depth : ℕ
  pub token_budget : ℕ
  pub context_filters : Option (List String)

-- What the tools read of the graph (networkx, graphify) and of Python: the attributes of the nodes in
-- their order, the neighbours, the attributes of an edge and of all edges, the searches of the adapter,
-- `sanitize_label` on a text and on a value that is none, `str.lower`, `repr` of a text, and
-- `round(a / b * 100)` on floats.
pub record Reader (g : Graphify) : Type 0 where
  pub nodes : g.Graph → Dict String Attrs
  pub successors : g.Graph → String → List String
  pub predecessors : g.Graph → String → List String
  pub edge_data : g.Graph → String → String → Attrs
  pub edges : g.Graph → List Attrs
  pub degree : g.Graph → String → ℕ
  pub find_node : g.Graph → Text → List String
  pub query_graph_text : g.Graph → Query → Result Text
  pub shortest_path_text : g.Graph → Arguments → Result Text
  pub sanitize_label : Text → Text
  pub sanitize_value : Value → Result Text
  pub lower : Text → Text
  pub repr : String → Text
  pub percent : ℕ → ℕ → ℕ
