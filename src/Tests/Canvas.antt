-- ===== src/Tests/Canvas.antt =====
-- A flow drawn as a chain of three steps.
use automa_build.Prelude.{◌≡◌, refl, none, some, [], ◌∷◌, String}
use automa_build.FlowCanvas.Graph.{
  CanvasNode, CanvasGraph, CanvasConnection, descendants, connect, remove_node, live_edges,
  successors, would_create_cycle, handle_already_used,
}
use automa_build.FlowCanvas.Graph.Acyclic.{IsAcyclic, connect-IsAcyclic}
use automa_build.FlowCanvas.Graph.Wired.{IsWired, edits-IsWired}

abbrev node : String → CanvasNode
node id = record { id = id; kind = "step" }

abbrev link : String → String → CanvasConnection
link a b = record { source = a; target = b; source_handle = none; target_handle = none }

abbrev unlinked : CanvasGraph
unlinked = record { nodes = node "a" ∷ node "b" ∷ node "c" ∷ []; edges = [] }

abbrev chain : CanvasGraph
chain = (connect (connect unlinked (link "a" "b")).1 (link "b" "c")).1

descendants_of_a : descendants chain "a" ≡ "b" ∷ "c" ∷ []
unfolding descendants connect
descendants_of_a = refl

circle_refused : (connect chain (link "c" "a")).0 ≡ some would_create_cycle
unfolding descendants connect
circle_refused = refl

second_input_refused : (connect chain (link "a" "c")).0 ≡ some handle_already_used
unfolding descendants connect
second_input_refused = refl

unlinked-IsAcyclic : IsAcyclic unlinked
unfolding live_edges successors
unlinked-IsAcyclic m n h p = cc

connect-IsAcyclic_example : IsAcyclic chain
connect-IsAcyclic_example =
    connect-IsAcyclic (connect unlinked (link "a" "b")).1 (link "b" "c")
      (connect-IsAcyclic unlinked (link "a" "b") unlinked-IsAcyclic)

chain-IsWired : IsWired chain
unfolding connect
chain-IsWired = ((refl, refl), ((refl, refl), tt))

edits-IsWired_example : IsWired (connect chain (link "c" "a")).1 × IsWired (remove_node chain "b")
edits-IsWired_example = edits-IsWired chain (link "c" "a") "b" chain-IsWired
