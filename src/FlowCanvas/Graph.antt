-- ===== src/FlowCanvas/Graph.antt =====
-- packages/automa-flow-canvas/src/core/graph.ts and the edits of src/store/graph-store.ts. A node's
-- position, data and parent are left out: no function here reads them. A `Set` is the list of its
-- members in the order of insertion, and the stack of `walk` has its end at the head.
pub mod Acyclic
pub mod Wired
use mathlib.Core.List.{reverse}
use Prim.Native.String.{◌++◌ as join_text}
use automa_build.Prelude.{
  ℕ, zero, suc, ◌+◌, Bool, true, false, not, ◌&&◌, ◌||◌, Option, none, some, List, [], ◌∷◌, ◌++◌,
  if◌then◌else◌, keep, any, includes, length, str_eq, String, get_or,
}

pub record CanvasNode : Type 0 where
  pub id : String
  pub kind : String

pub record CanvasEdge : Type 0 where
  pub id : String
  pub source : String
  pub target : String
  pub source_handle : Option String
  pub target_handle : Option String

pub record CanvasGraph : Type 0 where
  pub nodes : List CanvasNode
  pub edges : List CanvasEdge

unfoldable pub is_known : List CanvasNode → String → Bool
is_known [] id = false
is_known (n ∷ ns) id = str_eq n.id id || is_known ns id

-- the edges that `outgoing` lists: those whose source is a node
unfoldable pub live_edges : CanvasGraph → List CanvasEdge
unfolding is_known
live_edges graph = keep (λ e. is_known graph.nodes e.source) graph.edges

-- `outgoing(graph).get(id) ?? []`, on the edges that it lists
unfoldable pub successors : List CanvasEdge → String → List String
successors [] id = []
successors (e ∷ es) id =
    if str_eq e.source id then e.target ∷ successors es id else successors es id

-- the `while` loop of `walk`; `none` means that the fuel ran out
unfoldable pub walk_from : List CanvasEdge → ℕ → List String → List String → Option (List String)
unfolding successors
walk_from edges fuel [] seen = some seen
walk_from edges zero (next ∷ stack) seen = none
walk_from edges (suc fuel) (next ∷ stack) seen = elim (includes seen next) [
  | true ↦ walk_from edges fuel stack seen
  | false ↦ walk_from edges fuel (reverse (successors edges next) ++ stack) (seen ++ next ∷ [])
]

-- Each edge is put on the stack once at the start, and once more when its source is first seen.
unfoldable pub descendants : CanvasGraph → String → List String
unfolding walk_from live_edges successors
descendants graph start =
    get_or
      (walk_from (live_edges graph)
        (length (successors (live_edges graph) start) + length (live_edges graph))
        (reverse (successors (live_edges graph) start)) [])
      []

pub data ConnectionRefusal : Type 0 where
  self_loop would_create_cycle duplicate_edge unknown_node handle_already_used : ConnectionRefusal

abbrev same_handle : Option String → Option String → Bool
same_handle none none = true
same_handle none (some b) = false
same_handle (some a) none = false
same_handle (some a) (some b) = str_eq a b

-- `none` is a connection that may be made.
unfoldable pub can_connect : CanvasGraph → CanvasEdge → Option ConnectionRefusal
unfolding is_known descendants
can_connect graph c =
    if str_eq c.source c.target
    then some self_loop
    else if not (is_known graph.nodes c.source) || not (is_known graph.nodes c.target)
    then some unknown_node
    else if includes (descendants graph c.target) c.source
    then some would_create_cycle
    else if any
        (λ (e : CanvasEdge).
          str_eq e.source c.source
          && str_eq e.target c.target
          && same_handle e.source_handle c.source_handle)
        graph.edges
    then some duplicate_edge
    else if any
        (λ (e : CanvasEdge).
          str_eq e.target c.target && same_handle e.target_handle c.target_handle)
        graph.edges
    then some handle_already_used
    else none

pub record CanvasConnection : Type 0 where
  pub source : String
  pub target : String
  pub source_handle : Option String
  pub target_handle : Option String

-- the edge that stands for a connection
unfoldable pub edge_of : CanvasConnection → CanvasEdge
edge_of c = record {
  id = join_text c.source (
      join_text "->" (
        join_text c.target
          (elim c.source_handle [ none ↦ "" | some handle ↦ join_text ":" handle ])));
  source = c.source;
  target = c.target;
  source_handle = c.source_handle;
  target_handle = c.target_handle;
}

-- `removeNode` of the store: the edges that touch the node go with it.
unfoldable pub remove_node : CanvasGraph → String → CanvasGraph
remove_node graph id = record {
  nodes = keep (λ n. not (str_eq n.id id)) graph.nodes;
  edges = keep (λ e. not (str_eq e.source id) && not (str_eq e.target id)) graph.edges;
}

-- `connect` of the store: the new edge is appended where it may be made, and refused otherwise.
unfoldable pub connect : CanvasGraph → CanvasConnection → Option ConnectionRefusal × CanvasGraph
unfolding can_connect edge_of
connect graph c = elim (can_connect graph (edge_of c)) [
  | some refusal ↦ (some refusal, graph)
  | none ↦ (none, record graph { edges = graph.edges ++ edge_of c ∷ [] })
]
