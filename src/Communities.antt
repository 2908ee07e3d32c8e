-- ===== src/Communities.antt =====
-- src/aizk/graph/communities.py: the detector that refines the entity graph. A set of entities is a
-- list of them.
pub mod Measure
pub mod Partition
use aizk.Base.{
  ℕ, zero, suc, ◌+◌, Bool, true, false, not, ◌&&◌, Option, none, some, List, [], ◌∷◌, ◌++◌, ltb,
  leb, ◌==◌, elem, filter_by, length, map, if◌then◌else◌,
}

-- `CommunityFact`, its statement by a number.
pub record CommunityFact : Type 0 where
  pub subject_id : ℕ
  pub object_id : Option ℕ
  pub statement : ℕ

pub record Graph : Type 0 where
  pub nodes : List ℕ
  pub edges : List (ℕ × ℕ)

abbrev pub add_node : ℕ → List ℕ → List ℕ
add_node n ns = if elem n ns then ns else ns ++ n ∷ []

abbrev pub add_edge : ℕ → ℕ → Graph → Graph
add_edge a b g = record { nodes = add_node b (add_node a g.nodes); edges = g.edges ++ (a, b) ∷ [] }

-- `graph.add_edges_from(...)`
unfoldable pub graph_of : List CommunityFact → Graph → Graph
graph_of [] g = g
graph_of (f ∷ fs) g =
    graph_of fs (elim f.object_id [ none ↦ g | some o ↦ add_edge f.subject_id o g ])

abbrev pub joins : List ℕ → List (ℕ × ℕ) → List (ℕ × ℕ)
joins cluster es = filter_by (λ (e : ℕ × ℕ). elem e.0 cluster && elem e.1 cluster) es

-- `graph.subgraph(cluster)`
abbrev pub subgraph : Graph → List ℕ → Graph
subgraph g cluster = record { nodes = cluster; edges = joins cluster g.edges }

pub record Detector : Type 0 where
  pub max_size : ℕ
  pub min_size : ℕ
  pub max_depth : ℕ

-- `partition`: one pass of `louvain_communities` with the configured resolution and seed.
abbrev pub Louvain : Type 0
Louvain = Graph → List (List ℕ)

abbrev pub at_depth : ℕ → List (List ℕ) → List (List ℕ × ℕ)
at_depth depth [] = []
at_depth depth (c ∷ cs) = (c, depth) ∷ at_depth depth cs

module _ (cfg : Detector) (partition : Louvain) (g : Graph) where
  abbrev pub repeats : List ℕ → ℕ → Bool
  repeats cluster depth = (depth == 0) && (length cluster == length g.nodes)

  abbrev pub refined : List ℕ → ℕ → List (List ℕ)
  refined cluster depth =
      if ltb cfg.max_size (length cluster)
        && (ltb depth cfg.max_depth && not (repeats cluster depth))
      then partition (subgraph g cluster)
      else []

  -- The `while pending` loop, on fuel; `none` says that the fuel ran out.
  unfoldable pub refine : ℕ → List (List ℕ × ℕ) → List (List ℕ) → Option (List (List ℕ))
  refine fuel [] leaves = some leaves
  refine zero (p ∷ pending) leaves = none
  refine (suc fuel) ((cluster, depth) ∷ pending) leaves =
      let parts = refined cluster depth in
      elim (ltb 1 (length parts)) [
        | true ↦ refine fuel (pending ++ at_depth (depth + 1) parts) leaves
        | false ↦ refine fuel pending (leaves ++ cluster ∷ [])
      ]

abbrev pub kept_of : Detector → List (List ℕ) → List (List ℕ)
kept_of cfg leaves = filter_by (λ c. leb cfg.min_size (length c)) leaves

abbrev pub kept : Detector → Option (List (List ℕ)) → Option (List (List ℕ))
kept cfg none = none
kept cfg (some leaves) = some (kept_of cfg leaves)

abbrev pub empty_graph : Graph
empty_graph = record { nodes = []; edges = [] }

-- `detect`
unfoldable pub detect : Detector → Louvain → ℕ → List CommunityFact → Option (List (List ℕ))
unfolding graph_of refine
detect cfg partition fuel facts =
    let g = graph_of facts empty_graph in
    if length g.edges == 0
    then some []
    else kept cfg (refine cfg partition g fuel (at_depth 0 (partition g)) [])
