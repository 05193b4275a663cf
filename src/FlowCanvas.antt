-- ===== src/FlowCanvas.antt =====
-- packages/automa-flow-canvas: the graph that a flow is drawn as.
pub mod Graph
