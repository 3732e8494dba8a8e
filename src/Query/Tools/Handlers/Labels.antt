-- ===== src/Query/Tools/Handlers/Labels.antt =====
-- graph_query_api/tools.py: labels that are texts, where the handlers read them.
use graphify_daemon_portfoli.Prelude.{
  ◌≡◌, refl, if_pos, if_neg, sym, ◌∙◌, subst, arith, Bool, true, false, some, Option-cases, inl,
  inr, [], ◌∷◌, String, String-discrete, All, if◌then◌else◌,
}
use graphify_daemon_portfoli.Prelude.Dict.{Dict, lookup}
use graphify_daemon_portfoli.Prelude.Exec.{Result, ok, raise}
use graphify_daemon_portfoli.Prelude.Fallible.{◌>>=◌}
use graphify_daemon_portfoli.Prelude.Text.{Text, Value, codes}
use graphify_daemon_portfoli.Graphify.{Attrs, Graphify}
use graphify_daemon_portfoli.Query.Tools.{Reader}
use graphify_daemon_portfoli.Query.Tools.Attributes.{get, or_else, is_empty, node_data}
use graphify_daemon_portfoli.Query.Tools.Nodes.{matching, is_match}
use graphify_daemon_portfoli.Query.Tools.Handlers.Causes.{IsText, IsLabelled}

some_inj : {x y : Attrs} → some x ≡ some y → x ≡ y
some_inj e = cc

module _ (g : Graphify) (r : Reader g) where
  text_or_empty-IsText : (s : String) → IsText g r (or_else (Value.text s) (Value.text ""))
  text_or_empty-IsText s = from (is_empty (codes s)) refl
    where
      from :
          (b : Bool) → is_empty (codes s) ≡ b → IsText g r (or_else (Value.text s) (Value.text ""))
      from true e = ("", ground (arith, e))
      from false e = (s, ground (arith, e))

  -- `d.get("label") or ""`
  pub label-IsText :
      (n : String × Attrs)
      → IsLabelled g r n
      → IsText g r (or_else (get "label" Value.null n.1) (Value.text ""))
  label-IsText (nid, d) (t, h) = elim (Option-cases (lookup String-discrete "label" d)) [
    | inl missing ↦ rw missing ("", refl)
    | inr (v, there) ↦
        let same : v ≡ Value.text t = ground (arith, there, h) in
        rw (there, same) (text_or_empty-IsText t)
  ]

  lookup-IsLabelled :
      (ns : Dict String Attrs) (n : String) (d : Attrs)
      → All (IsLabelled g r) ns
      → lookup String-discrete n ns ≡ some d
      → IsLabelled g r (n, d)
  unfolding lookup
  lookup-IsLabelled [] n d h e = cc
  lookup-IsLabelled ((m, x) ∷ ns) n d h e = elim (String-discrete m n) [
    | yes same ↦
        let found : x ≡ d =
          some_inj
            (sym (if_pos (String-discrete m n) same (some x) (lookup String-discrete n ns)) ∙ e) in
        subst (λ k. IsLabelled g r (k, d)) same (subst (λ y. IsLabelled g r (m, y)) found h.0)
    | no other ↦
        lookup-IsLabelled ns n d h.1
          (sym (if_neg (String-discrete m n) other (some x) (lookup String-discrete n ns)) ∙ e)
  ]

  -- The attributes of a node that is in the graph.
  pub node_data-IsLabelled :
      (graph : g.Graph) (n : String) (d : Attrs)
      → All (IsLabelled g r) (r.nodes graph)
      → node_data g r graph n ≡ ok d
      → IsLabelled g r (n, d)
  node_data-IsLabelled graph n d h e =
      elim (Option-cases (lookup String-discrete n (r.nodes graph))) [
        | inl gone ↦ absurd (ground (arith, gone, e))
        | inr (x, there) ↦ lookup-IsLabelled (r.nodes graph) n d h (ground (arith, there, e))
      ]

  -- The matches of a search that returns have labels.
  abbrev Finds : Result (Dict String Attrs) → Type 0
  Finds (ok ms) = All (IsLabelled g r) ms
  Finds (raise e) = Unit

  keep-IsLabelled :
      (b : Bool) (n : String × Attrs) (ms : Dict String Attrs)
      → IsLabelled g r n
      → All (IsLabelled g r) ms
      → All (IsLabelled g r) (if b then n ∷ ms else ms)
  keep-IsLabelled true n ms h k = (h, k)
  keep-IsLabelled false n ms h k = k

  bind-Finds :
      (keep : Result Bool) (rest : Result (Dict String Attrs)) (n : String × Attrs)
      → IsLabelled g r n
      → Finds rest
      → Finds (keep >>= λ b. rest >>= λ ms. ok (if b then n ∷ ms else ms))
  bind-Finds (raise e) rest n h k = tt
  bind-Finds (ok b) (raise e) n h k = tt
  bind-Finds (ok b) (ok ms) n h k = keep-IsLabelled b n ms h k

  matching-Finds :
      (label : Text) (ns : Dict String Attrs)
      → All (IsLabelled g r) ns
      → Finds (matching g r label ns)
  unfolding matching
  matching-Finds label [] h = tt
  matching-Finds label (n ∷ ns) h =
      bind-Finds (is_match g r label n) (matching g r label ns) n h.0 (matching-Finds label ns h.1)

  pub matching-IsLabelled :
      (label : Text) (ns ms : Dict String Attrs)
      → All (IsLabelled g r) ns
      → matching g r label ns ≡ ok ms
      → All (IsLabelled g r) ms
  matching-IsLabelled label ns ms h e = subst Finds e (matching-Finds label ns h)
