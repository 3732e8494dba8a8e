-- ===== src/Compiler/Clustering/Inversion.antt =====
-- vault_compiler/clustering.py: `build_previous_node_community` inverts a community map.
use graphify_daemon_portfoli.Prelude.{
  ℕ, ◌≡◌, ◌≢◌, ap, ◌∙◌, ◌⊎◌, ◌↔◌, inl, inr, arith, none, some, List, [], ◌∷◌, String,
  String-discrete, Option-cases,
}
use graphify_daemon_portfoli.Prelude.Dict.{Dict, lookup, put, lookup-put}
use graphify_daemon_portfoli.Graphify.{Communities}
use graphify_daemon_portfoli.Compiler.Clustering.{
  build_previous_node_community, invert_nodes, invert_from,
}

-- `node` stands among the nodes.
abbrev pub Among : String → List String → Type 0
Among node [] = ⊥
Among node (n ∷ ns) = (n ≡ node) ⊎ Among node ns

-- `node` belongs to the community `cid`.
abbrev pub Belongs : String → ℕ → Communities → Type 0
Belongs node cid [] = ⊥
Belongs node cid ((c, nodes) ∷ m) = ((c ≡ cid) × Among node nodes) ⊎ Belongs node cid m

module _ (node : String) where
  nodes_sound :
      (cid : ℕ) (ns : List String) (d : Dict String ℕ) (c : ℕ)
      → lookup String-discrete node (invert_nodes cid ns d) ≡ some c
      → ((cid ≡ c) × Among node ns) ⊎ (lookup String-discrete node d ≡ some c)
  nodes_sound cid [] d c h = inr h
  nodes_sound cid (n ∷ ns) d c h = elim (nodes_sound cid ns (put String-discrete n cid d) c h) [
    | inl (e, a) ↦ inl (e, inr a)
    | inr found ↦ elim (String-discrete n node) [
      | yes p ↦ inl (ground (arith, lookup-put String-discrete n node cid d), inl p)
      | no q ↦ inr (ground (arith, lookup-put String-discrete n node cid d))
    ]
  ]

  maps_sound :
      (m : Communities) (d : Dict String ℕ) (c : ℕ)
      → lookup String-discrete node (invert_from m d) ≡ some c
      → Belongs node c m ⊎ (lookup String-discrete node d ≡ some c)
  maps_sound [] d c h = inr h
  maps_sound ((cid, ns) ∷ m) d c h = elim (maps_sound m (invert_nodes cid ns d) c h) [
    | inl b ↦ inl (inr b)
    | inr found ↦ elim (nodes_sound cid ns d c found) [ inl a ↦ inl (inl a) | inr old ↦ inr old ]
  ]

  -- A node that has a community keeps one.
  nodes_keep :
      (cid : ℕ) (ns : List String) (d : Dict String ℕ)
      → lookup String-discrete node d ≢ none
      → lookup String-discrete node (invert_nodes cid ns d) ≢ none
  nodes_keep cid [] d h = h
  nodes_keep cid (n ∷ ns) d h =
      nodes_keep cid ns (put String-discrete n cid d)
        (λ e. h (ground (arith, lookup-put String-discrete n node cid d)))

  maps_keep :
      (m : Communities) (d : Dict String ℕ)
      → lookup String-discrete node d ≢ none
      → lookup String-discrete node (invert_from m d) ≢ none
  maps_keep [] d h = h
  maps_keep ((cid, ns) ∷ m) d h = maps_keep m (invert_nodes cid ns d) (nodes_keep cid ns d h)

  nodes_complete :
      (cid : ℕ) (ns : List String) (d : Dict String ℕ)
      → Among node ns
      → lookup String-discrete node (invert_nodes cid ns d) ≢ none
  nodes_complete cid [] d a = absurd a
  nodes_complete cid (n ∷ ns) d (inl e) =
      nodes_keep cid ns (put String-discrete n cid d)
        (λ h. ground (arith, lookup-put String-discrete n node cid d))
  nodes_complete cid (n ∷ ns) d (inr a) = nodes_complete cid ns (put String-discrete n cid d) a

  maps_complete :
      (m : Communities) (d : Dict String ℕ) (c : ℕ)
      → Belongs node c m
      → lookup String-discrete node (invert_from m d) ≢ none
  maps_complete [] d c b = absurd b
  maps_complete ((cid, ns) ∷ m) d c (inl (e, a)) =
      maps_keep m (invert_nodes cid ns d) (nodes_complete cid ns d a)
  maps_complete ((cid, ns) ∷ m) d c (inr b) = maps_complete m (invert_nodes cid ns d) c b

  -- If no node belongs to two communities, the inverted map sends a node to a community exactly when the
  -- node belongs to it.
  pub inversion_iff :
      (m : Communities) (c : ℕ)
      → ((a b : ℕ) → Belongs node a m → Belongs node b m → a ≡ b)
      → (lookup String-discrete node (build_previous_node_community m) ≡ some c) ↔ Belongs node c m
  unfolding build_previous_node_community lookup
  inversion_iff m c disjoint = (
    λ h. elim (maps_sound m [] c h) [ inl b ↦ b | inr e ↦ absurd (cc) ],
    λ b. elim (Option-cases (lookup String-discrete node (invert_from m []))) [
      | inl none_found ↦ absurd (maps_complete m [] c b none_found)
      | inr (a, found) ↦ elim (maps_sound m [] a found) [
        | inl here ↦ found ∙ ap some (disjoint a c here b)
        | inr e ↦ absurd (cc)
      ]
    ],
  )
