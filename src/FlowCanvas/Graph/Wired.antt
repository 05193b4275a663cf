-- ===== src/FlowCanvas/Graph/Wired.antt =====
-- Edges and their ends under the edits of packages/automa-flow-canvas/src/store/graph-store.ts.
use automa_build.Prelude.{
  ◌≡◌, inl, inr, refl, true, false, not, ◌&&◌, none, List, [], ◌∷◌, arith, keep, All, All-append,
  str_eq, eq_iff, String, Bool-cases, Option-cases,
}
use automa_build.FlowCanvas.Graph.{
  CanvasNode, CanvasEdge, CanvasGraph, CanvasConnection, is_known, can_connect, connect, edge_of,
  remove_node,
}

-- both ends of an edge are nodes
abbrev pub Joins : List CanvasNode → CanvasEdge → Type 0
Joins nodes e = (is_known nodes e.source ≡ true) × (is_known nodes e.target ≡ true)

abbrev pub IsWired : CanvasGraph → Type 0
IsWired graph = All (Joins graph.nodes) graph.edges

is_known-keep :
    (nodes : List CanvasNode) (gone id : String)
    → str_eq id gone ≡ false
    → is_known (keep (λ n. not (str_eq n.id gone)) nodes) id ≡ is_known nodes id
unfolding is_known
is_known-keep [] gone id h = refl
is_known-keep (n ∷ ns) gone id h =
    ground (arith, is_known-keep ns gone id h, eq_iff n.id gone, eq_iff n.id id, eq_iff id gone)

keep-Joins :
    (nodes : List CanvasNode) (gone : String) (edges : List CanvasEdge)
    → All (Joins nodes) edges
    → All
        (Joins (keep (λ n. not (str_eq n.id gone)) nodes))
        (keep (λ e. not (str_eq e.source gone) && not (str_eq e.target gone)) edges)
keep-Joins nodes gone [] all = tt
keep-Joins nodes gone (e ∷ es) all =
    elim (Bool-cases (not (str_eq e.source gone) && not (str_eq e.target gone))) [
      | inr out ↦ rw out (keep-Joins nodes gone es all.1)
      | inl stays ↦ rw stays (
        (
          ground (arith, stays, all.0.0, is_known-keep nodes gone e.source),
          ground (arith, stays, all.0.1, is_known-keep nodes gone e.target),
        ),
        keep-Joins nodes gone es all.1,
      )
    ]

can_connect-Joins :
    (graph : CanvasGraph) (c : CanvasEdge) → can_connect graph c ≡ none → Joins graph.nodes c
unfolding can_connect
can_connect-Joins graph c h = (ground arith, ground arith)

-- Where each edge of a graph joins two of its nodes, so does each after a connection, however it
-- is answered, and after the removal of a node.
pub edits-IsWired :
    (graph : CanvasGraph) (c : CanvasConnection) (id : String)
    → IsWired graph
    → IsWired (connect graph c).1 × IsWired (remove_node graph id)
unfolding connect remove_node
edits-IsWired graph c id w = (
  elim (Option-cases (can_connect graph (edge_of c))) [
    | inr (refusal, e) ↦ rw (e, connect) w
    | inl e ↦
        rw (e, connect)
          (All-append (Joins graph.nodes) graph.edges (edge_of c ∷ []) w
            (can_connect-Joins graph (edge_of c) e, tt))
  ],
  keep-Joins graph.nodes id graph.edges w,
)
