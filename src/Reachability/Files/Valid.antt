-- ===== src/Reachability/Files/Valid.antt =====
-- codex_preflight_core/reachability/resolver.py: the graph stays well formed and within its budget.
use codex_preflight.Base.{
  ℕ, suc, ◌+◌, ◌≤◌, ◌≡◌, inl, inr, refl, Bool, true, false, ◌||◌, not, Option, String, List, [],
  ◌∷◌, ◌++◌, arith, contains, string_eq, ◌==◌, length, All, All-append, any, any-append, Bool-cases,
}
use codex_preflight.Reachability.Uncertainty.{Uncertainty, node_budget_exceeded}
use codex_preflight.Reachability.Graph.{
  Node, Edge, Graph, report, has_budget, exhaust, new_node, link, visit, add_capabilities,
  max_nodes,
}
use codex_preflight.Reachability.Files.{Reference, Tree, follow_target}
use codex_preflight.Reachability.Files.Keeps.{IsKept, size, size-link, follow_target-Keeps}

-- The nodes have the numbers k, k + 1 and so on.
abbrev IsNumbered : ℕ → List Node → Type 0
IsNumbered k [] = Unit
IsNumbered k (n ∷ ns) = (n.number ≡ k) × IsNumbered (suc k) ns

-- Both ends of the edge are among n nodes.
abbrev IsWithin : ℕ → Edge → Type 0
IsWithin n e = (1 ≤ e.from_id) × (e.from_id ≤ n) × (1 ≤ e.to_id) × (e.to_id ≤ n)

abbrev IsDistinct : List String → Type 0
IsDistinct [] = Unit
IsDistinct (x ∷ xs) = (contains xs x ≡ false) × IsDistinct xs

abbrev pub is_budget_report : Uncertainty → Bool
is_budget_report u = u.rule_id == "SCRIPT_NODE_BUDGET_EXCEEDED"

IsNumbered-append :
    (k : ℕ) (ns : List Node) (n : Node)
    → IsNumbered k ns
    → n.number ≡ length ns + k
    → IsNumbered k (ns ++ (n ∷ []))
IsNumbered-append k [] n h e = (omega (arith, e), tt)
IsNumbered-append k (m ∷ ns) n h e = (h.0, IsNumbered-append (suc k) ns n h.1 (omega (arith, e)))

IsWithin-mono : (m n : ℕ) (es : List Edge) → m ≤ n → All (IsWithin m) es → All (IsWithin n) es
IsWithin-mono m n [] le h = tt
IsWithin-mono m n (e ∷ es) le h = (omega (arith, le, h.0), IsWithin-mono m n es le h.1)

exhausted_told :
    (label : String) (file : Option String) (us : List Uncertainty)
    → any is_budget_report (us ++ (node_budget_exceeded label file ∷ [])) ≡ true
exhausted_told label file us =
    rw (any-append is_budget_report us (node_budget_exceeded label file ∷ [])) (ground arith)

module _ {Capability : Type 0} where
  -- At most `MAX_NODES` nodes, numbered from 1; edges between them; no file visited twice; and an
  -- exhausted budget is among the uncertainties.
  pub record IsValid (g : Graph Capability) : Type 0 where
    pub bounded : size g ≤ max_nodes
    pub numbered : IsNumbered 1 g.nodes
    pub within : All (IsWithin (size g)) g.edges
    pub distinct : IsDistinct g.visited
    pub told : (not g.exhausted || any is_budget_report g.uncertainties) ≡ true

  report-IsValid : (u : Uncertainty) (g : Graph Capability) → IsValid g → IsValid (report u g)
  unfolding report
  report-IsValid u g v = record {
    bounded = v.bounded;
    numbered = v.numbered;
    within = v.within;
    distinct = v.distinct;
    told = ground (arith, v.told, any-append is_budget_report g.uncertainties (u ∷ []));
  }

  exhaust-IsValid :
      (label : String) (file : Option String) (g : Graph Capability)
      → IsValid g
      → IsValid (exhaust label file g)
  unfolding exhaust report
  exhaust-IsValid label file g v = elim (Bool-cases g.exhausted) [
    | inl e ↦ simp (e) v
    | inr e ↦ rw (e) (record {
      bounded = v.bounded;
      numbered = v.numbered;
      within = v.within;
      distinct = v.distinct;
      told = exhausted_told label file g.uncertainties;
    })
  ]

  link-IsValid :
      (parent : Node) (label reason : String) (file : Option String) (g : Graph Capability)
      → 1 ≤ parent.number
      → parent.number ≤ size g
      → has_budget g ≡ true
      → IsValid g
      → IsValid (link parent "file" label file reason g)
  unfolding link has_budget
  link-IsValid parent label reason file g o i b v =
      let n = new_node "file" label file g in
      let grown : size (link parent "file" label file reason g) ≡ size g + 1 =
        size-link parent label reason file g in
      record {
        bounded = ground (arith, b, grown);
        numbered = IsNumbered-append 1 g.nodes n v.numbered refl;
        within =
            All-append (IsWithin (length (g.nodes ++ (n ∷ [])))) g.edges _
              (IsWithin-mono (size g) (length (g.nodes ++ (n ∷ []))) g.edges (omega (arith, grown))
                v.within)
              (omega (arith, o, i, grown), tt);
        distinct = v.distinct;
        told = v.told;
      }

  IsValid-IsKept : IsKept IsValid
  unfolding visit add_capabilities
  IsValid-IsKept = record {
    of_report = report-IsValid;
    of_exhaust = exhaust-IsValid;
    of_visit = λ relative g f v. record {
      bounded = v.bounded;
      numbered = v.numbered;
      within = v.within;
      distinct = (f, v.distinct);
      told = v.told;
    };
    of_capabilities = λ cs g v. record {
      bounded = v.bounded;
      numbered = v.numbered;
      within = v.within;
      distinct = v.distinct;
      told = v.told;
    };
    of_link = link-IsValid;
  }

  -- Following a target from a node of a valid graph, with any number of levels left, leaves a valid
  -- graph: at most 100 nodes, numbered from 1 in order; every edge between nodes of the graph; no file
  -- scanned twice; and, if the budget of nodes was spent, an uncertainty that says so.
  pub follow_target-IsValid :
      (tree : Tree Capability) (left : ℕ) (parent : Node) (base : String) (fallback : Option String)
      (r : Reference) (g : Graph Capability)
      → 1 ≤ parent.number
      → parent.number ≤ size g
      → IsValid g
      → IsValid (follow_target tree left parent base fallback r g)
  follow_target-IsValid tree left parent base fallback r g o i v =
      (follow_target-Keeps tree IsValid IsValid-IsKept left parent base fallback r g o i v).0
