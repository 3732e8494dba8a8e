-- ===== src/Query/Tools/Dispatch/Listed.antt =====
-- graph_query_api/tools.py: what `on_list_tools` lists is what a call finds.
use graphify_daemon_portfoli.Prelude.{
  ◌≡◌, ◌⊎◌, ◌↔◌, inl, inr, arith, some, List, [], ◌∷◌, String, str_eq, eq_iff, Bool-cases,
}
use graphify_daemon_portfoli.Query.Tools.Schema.{Tool, tool_definitions, find_tool, tool_by_name}

-- `on_list_tools`
unfoldable pub on_list_tools : List Tool
on_list_tools = tool_definitions

-- Some tool of the list has this name.
abbrev pub HasName : String → List Tool → Type 0
HasName name [] = ⊥
HasName name (t ∷ ts) = (t.name ≡ name) ⊎ HasName name ts

found_named :
    (name : String) (ts : List Tool) (t : Tool) → find_tool name ts ≡ some t → HasName name ts
found_named name [] t e = cc
found_named name (u ∷ ts) t e = elim (Bool-cases (str_eq u.name name)) [
  | inl same ↦ inl ((eq_iff u.name name).0 same)
  | inr other ↦ inr (found_named name ts t (ground (arith, other)))
]

named_found :
    (name : String) (ts : List Tool) → HasName name ts → (t : Tool) × (find_tool name ts ≡ some t)
named_found name [] h = elim h [ ]
named_found name (u ∷ ts) (inl same) = (u, ground (arith, (eq_iff u.name name).1 same))
named_found name (u ∷ ts) (inr h) = elim (Bool-cases (str_eq u.name name)) [
  | inl same ↦ (u, ground (arith, same))
  | inr other ↦ let (t, e) = named_found name ts h in (t, ground (arith, other, e))
]

-- A name is listed exactly if a call with that name finds its tool.
listed_iff :
    (name : String) → HasName name on_list_tools ↔ ((t : Tool) × (tool_by_name name ≡ some t))
unfolding on_list_tools tool_by_name
listed_iff name =
    (named_found name tool_definitions, λ (t, e). found_named name tool_definitions t e)
