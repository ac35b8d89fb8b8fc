-- ===== src/Reachability/Graph.antt =====
-- codex_preflight_core/reachability/graph.py and the operations of resolver.py on it: the graph of
-- what is reached, under a budget of nodes. The id of a node is its number, and its language is left
-- out; a capability is any value, since the graph only collects them.
use codex_preflight.Base.{
  ℕ, ◌+◌, Bool, true, Option, String, List, [], ◌∷◌, ◌++◌, length, ltb, if◌then◌else◌,
}
use codex_preflight.Reachability.Uncertainty.{Uncertainty, node_budget_exceeded}

pub record Node : Type 0 where
  pub number : ℕ
  pub node_type : String
  pub label : String
  pub file : Option String

pub record Edge : Type 0 where
  pub from_id : ℕ
  pub to_id : ℕ
  pub reason : String

-- `ExecutionGraph`, with the resolver's `visited_files` and `node_budget_exhausted`.
pub record Graph (Capability : Type 0) : Type 0 where
  pub nodes : List Node
  pub edges : List Edge
  pub capabilities : List Capability
  pub uncertainties : List Uncertainty
  pub visited : List String
  pub exhausted : Bool

-- `MAX_NODES`
abbrev pub max_nodes : ℕ
max_nodes = 100

-- `MAX_CHAIN_DEPTH`
abbrev pub max_chain_depth : ℕ
max_chain_depth = 5

module _ {Capability : Type 0} where
  -- `self.graph.uncertainties.append(…)`
  unfoldable pub report : Uncertainty → Graph Capability → Graph Capability
  report u g = record g { uncertainties = g.uncertainties ++ (u ∷ []) }

  -- The test of `_has_node_budget`.
  unfoldable pub has_budget : Graph Capability → Bool
  has_budget g = ltb (length g.nodes) max_nodes

  -- The rest of `_has_node_budget`, where the budget is spent.
  unfoldable pub exhaust : String → Option String → Graph Capability → Graph Capability
  exhaust pending_label file g =
      if g.exhausted
      then g
      else report (node_budget_exceeded pending_label file) (record g { exhausted = true })

  -- The node that `_add_node` makes.
  abbrev pub new_node : String → String → Option String → Graph Capability → Node
  new_node node_type label file g = record {
    number = length g.nodes + 1;
    node_type = node_type;
    label = label;
    file = file;
  }

  abbrev pub add_node : Node → Graph Capability → Graph Capability
  add_node node g = record g { nodes = g.nodes ++ (node ∷ []) }

  -- `_add_edge`
  abbrev pub add_edge : Node → Node → String → Graph Capability → Graph Capability
  add_edge source target reason g = record g {
    edges =
        g.edges
        ++ (record { from_id = source.number; to_id = target.number; reason = reason } ∷ []);
  }

  -- `_add_node` and `_add_edge` to it from a parent.
  unfoldable pub link :
      Node → String → String → Option String → String → Graph Capability → Graph Capability
  link parent node_type label file reason g =
      add_edge parent (new_node node_type label file g) reason
        (add_node (new_node node_type label file g) g)

  unfoldable pub visit : String → Graph Capability → Graph Capability
  visit relative g = record g { visited = relative ∷ g.visited }

  unfoldable pub add_capabilities : List Capability → Graph Capability → Graph Capability
  add_capabilities cs g = record g { capabilities = g.capabilities ++ cs }
