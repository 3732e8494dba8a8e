-- ===== src/Query/Tools/Schema.antt =====
-- graph_query_api/tools.py: the seven tool definitions. Titles and descriptions are left out.
use graphify_daemon_portfoli.Prelude.{
  ℕ, ◌≤◌, ◌≡◌, ◌⊎◌, Option, none, some, List, [], ◌∷◌, String, String-discrete, str_eq,
  if◌then◌else◌, length, All,
}
use graphify_daemon_portfoli.Prelude.Dict.{lookup}
use graphify_daemon_portfoli.Query.Tools.{Json, boolean, integer, text, texts, Arguments}

-- The type of a property, with its bounds: an integer from `minimum` to `maximum`, if there is one; a
-- text, of a list of texts if it is an enumeration; at most `max_items` texts; or a Boolean.
pub data Kind : Type 0 where
  any_text : Kind
  one_of : List String → Kind
  integer_in : ℕ → Option ℕ → Kind
  text_list : ℕ → Kind
  flag : Kind

pub record Property : Type 0 where
  pub name : String
  pub kind : Kind

pub record Tool : Type 0 where
  pub name : String
  pub properties : List Property
  pub required : List String

abbrev property : String → Kind → Property
property name kind = record { name = name; kind = kind }

abbrev token_budget_property : Property
token_budget_property = property "token_budget" (integer_in 1 (some 20000))

abbrev pub query_graph : Tool
query_graph = record {
  name = "query_graph";
  properties =
      property "question" any_text
      ∷ property "mode" (one_of ("bfs" ∷ "dfs" ∷ []))
      ∷ property "depth" (integer_in 1 (some 6))
      ∷ token_budget_property
      ∷ property "context_filter" (text_list 50)
      ∷ [];
  required = "question" ∷ [];
}

abbrev pub get_node : Tool
get_node = record {
  name = "get_node";
  properties = property "label" any_text ∷ [];
  required = "label" ∷ [];
}

abbrev pub get_neighbors : Tool
get_neighbors = record {
  name = "get_neighbors";
  properties =
      property "label" any_text ∷ property "relation_filter" any_text ∷ token_budget_property ∷ [];
  required = "label" ∷ [];
}

abbrev pub get_community : Tool
get_community = record {
  name = "get_community";
  properties = property "community_id" (integer_in 0 none) ∷ token_budget_property ∷ [];
  required = "community_id" ∷ [];
}

abbrev pub god_nodes : Tool
god_nodes = record {
  name = "god_nodes";
  properties = property "top_n" (integer_in 1 (some 500)) ∷ [];
  required = [];
}

abbrev pub graph_stats : Tool
graph_stats = record { name = "graph_stats"; properties = []; required = [] }

abbrev pub shortest_path : Tool
shortest_path = record {
  name = "shortest_path";
  properties =
      property "source" any_text
      ∷ property "target" any_text
      ∷ property "max_hops" (integer_in 1 (some 50))
      ∷ property "undirected" flag
      ∷ [];
  required = "source" ∷ "target" ∷ [];
}

abbrev pub tool_definitions : List Tool
tool_definitions =
    query_graph ∷ get_node ∷ get_neighbors ∷ get_community ∷ god_nodes ∷ graph_stats ∷ shortest_path
    ∷ []

abbrev pub find_tool : String → List Tool → Option Tool
find_tool name [] = none
find_tool name (t ∷ ts) = if str_eq t.name name then some t else find_tool name ts

-- `_TOOL_DEFINITIONS_BY_NAME.get(name)`
unfoldable pub tool_by_name : String → Option Tool
tool_by_name name = find_tool name tool_definitions

-- What JSON Schema says of a value of each kind.
abbrev pub IsAtMost : ℕ → Option ℕ → Type 0
IsAtMost n none = Unit
IsAtMost n (some m) = n ≤ m

abbrev pub IsAmong : String → List String → Type 0
IsAmong s [] = ⊥
IsAmong s (t ∷ ts) = (s ≡ t) ⊎ IsAmong s ts

abbrev pub Admits : Kind → Json → Type 0
Admits any_text (text s) = Unit
Admits (one_of l) (text s) = IsAmong s l
Admits (integer_in lo hi) (integer n) = (lo ≤ n) × IsAtMost n hi
Admits (text_list most) (texts l) = length l ≤ most
Admits flag (boolean b) = Unit
Admits kind v = ⊥

abbrev pub IsPresent : Kind → Option Json → Type 0
IsPresent kind none = Unit
IsPresent kind (some v) = Admits kind v

abbrev pub IsThere : Option Json → Type 0
IsThere none = ⊥
IsThere (some v) = Unit

-- The arguments conform to the tool's schema.
pub record Conforms (tool : Tool) (arguments : Arguments) : Type 0 where
  pub has_required : All (λ key. IsThere (lookup String-discrete key arguments)) tool.required
  pub admitted :
      All (λ p. IsPresent p.kind (lookup String-discrete p.name arguments)) tool.properties

-- `jsonschema.validate`: the message of a ValidationError, if it raises one. What is relied on: it
-- accepts only arguments that conform to the schema.
pub record Validator : Type 0 where
  pub validate : Tool → Arguments → Option String
  pub sound :
      (tool : Tool) (arguments : Arguments)
      → validate tool arguments ≡ none
      → Conforms tool arguments
