-- ===== src/Migration.antt =====
-- migration/comparator.py: the nodes and edges that two graph.json files do not share. A Python set is a
-- list here, whose order and repetitions do not matter.
use graphify_daemon_portfoli.Prelude.{
  ◌≡◌, refl, sym, ◌⊎◌, inl, inr, ◌↔◌, List, [], ◌∷◌, String, String-discrete, ite, subst, if_pos,
  if_neg,
}
use graphify_daemon_portfoli.Prelude.Exec.{Result, ok}
use graphify_daemon_portfoli.Prelude.Fallible.{◌>>=◌}
use graphify_daemon_portfoli.Vault.Path.{FilePath}

module _ {A : Type 0} (dec : Discrete A) where
  abbrev pub IsIn : A → List A → Type 0
  IsIn x [] = ⊥
  IsIn x (y ∷ ys) = (y ≡ x) ⊎ IsIn x ys

  pub is_in : (x : A) (ys : List A) → Dec (IsIn x ys)
  is_in x [] = no (λ h. h)
  is_in x (y ∷ ys) = elim (dec y x) [
    | yes e ↦ yes (inl e)
    | no n ↦ elim (is_in x ys) [
      | yes h ↦ yes (inr h)
      | no k ↦ no (λ h. elim h [ inl e ↦ n e | inr t ↦ k t ])
    ]
  ]

  -- `xs - ys`
  unfoldable pub difference : List A → List A → List A
  difference [] ys = []
  difference (x ∷ xs) ys = ite (is_in x ys) (difference xs ys) (x ∷ difference xs ys)

  difference-skip : (y : A) (xs ys : List A) → IsIn y ys → difference (y ∷ xs) ys ≡ difference xs ys
  unfolding difference
  difference-skip y xs ys h = rw (if_pos (is_in y ys) h) refl

  difference-keep :
      (y : A) (xs ys : List A) → ¬ (IsIn y ys) → difference (y ∷ xs) ys ≡ y ∷ difference xs ys
  unfolding difference
  difference-keep y xs ys h = rw (if_neg (is_in y ys) h) refl

  -- The difference has exactly the elements of the first set that are not in the second.
  pub difference-IsIn :
      (x : A) (xs ys : List A) → IsIn x (difference xs ys) → IsIn x xs × (¬ (IsIn x ys))
  unfolding difference
  difference-IsIn x [] ys h = elim h [ ]
  difference-IsIn x (y ∷ xs) ys h = elim (is_in y ys) [
    | yes there ↦
        let (i, n) = difference-IsIn x xs ys (subst (IsIn x) (difference-skip y xs ys there) h) in
        (inr i, n)
    | no absent ↦ elim (subst (IsIn x) (difference-keep y xs ys absent) h) [
      | inl e ↦ (inl e, subst (λ z. ¬ (IsIn z ys)) e absent)
      | inr t ↦ let (i, n) = difference-IsIn x xs ys t in (inr i, n)
    ]
  ]

  pub IsIn-difference :
      (x : A) (xs ys : List A) → IsIn x xs → ¬ (IsIn x ys) → IsIn x (difference xs ys)
  unfolding difference
  IsIn-difference x [] ys h n = h
  IsIn-difference x (y ∷ xs) ys h n = elim (is_in y ys) [
    | yes there ↦ subst (IsIn x) (sym (difference-skip y xs ys there)) (elim h [
      | inl e ↦ absurd (n (subst (λ z. IsIn z ys) e there))
      | inr t ↦ IsIn-difference x xs ys t n
    ])
    | no absent ↦
        subst (IsIn x) (sym (difference-keep y xs ys absent))
          (elim h [ inl e ↦ inl e | inr t ↦ inr (IsIn-difference x xs ys t n) ])
  ]

abbrev pub Edge : Type 0
Edge = String × String

-- The nodes and edges of the graph that a graph.json file holds.
pub record Content : Type 0 where
  pub nodes : List String
  pub edges : List Edge

pub record Report : Type 0 where
  pub nodes_only_in_legacy : List String
  pub nodes_only_in_new : List String
  pub edges_only_in_legacy : List Edge
  pub edges_only_in_new : List Edge

pub Edge-discrete : Discrete Edge
Edge-discrete = hlevel String-discrete

-- `compare_graph_jsons`; `read` is the reading, parsing and building of a file.
unfoldable pub compare_graph_jsons :
    (FilePath → Result Content) → FilePath → FilePath → Result Report
compare_graph_jsons read legacy_path new_path = do
  legacy ← read legacy_path
  new ← read new_path
  ok (record {
    nodes_only_in_legacy = difference String-discrete legacy.nodes new.nodes;
    nodes_only_in_new = difference String-discrete new.nodes legacy.nodes;
    edges_only_in_legacy = difference Edge-discrete legacy.edges new.edges;
    edges_only_in_new = difference Edge-discrete new.edges legacy.edges;
  })

-- A set is in the first graph and not in the second.
abbrev pub IsOnlyIn : {A : Type 0} → Discrete A → List A → List A → List A → Type 0
IsOnlyIn dec out xs ys = (x : _) → IsIn dec x out ↔ (IsIn dec x xs × (¬ (IsIn dec x ys)))

difference-IsOnlyIn :
    {A : Type 0} (dec : Discrete A) (xs ys : List A) → IsOnlyIn dec (difference dec xs ys) xs ys
difference-IsOnlyIn dec xs ys x =
    (difference-IsIn dec x xs ys, λ h. IsIn-difference dec x xs ys h.0 h.1)

-- If both files can be read, the comparison returns, and each of its four parts has exactly the nodes or the
-- edges that one graph has and the other has not.
pub compare_graph_jsons_lem :
    (read : FilePath → Result Content) (legacy_path new_path : FilePath) (legacy new : Content)
    → read legacy_path ≡ ok legacy
    → read new_path ≡ ok new
    → (r : Report) × (compare_graph_jsons read legacy_path new_path ≡ ok r)
      × IsOnlyIn String-discrete r.nodes_only_in_legacy legacy.nodes new.nodes
      × IsOnlyIn String-discrete r.nodes_only_in_new new.nodes legacy.nodes
      × IsOnlyIn Edge-discrete r.edges_only_in_legacy legacy.edges new.edges
      × IsOnlyIn Edge-discrete r.edges_only_in_new new.edges legacy.edges
unfolding compare_graph_jsons
compare_graph_jsons_lem read legacy_path new_path legacy new h k =
    rw (h, k)
      (
        _,
        refl,
        difference-IsOnlyIn String-discrete legacy.nodes new.nodes,
        difference-IsOnlyIn String-discrete new.nodes legacy.nodes,
        difference-IsOnlyIn Edge-discrete legacy.edges new.edges,
        difference-IsOnlyIn Edge-discrete new.edges legacy.edges,
      )
