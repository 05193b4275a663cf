-- ===== src/FlowCanvas/Graph/Acyclic.antt =====
-- Paths along the edges of a drawn flow, and `connect`
-- (packages/automa-flow-canvas/src/core/graph.ts, src/store/graph-store.ts).
use mathlib.Core.List.{reverse}
use automa_build.Prelude.{
  ℕ, zero, suc, ◌+◌, ◌≡◌, ◌⊎◌, inl, inr, refl, sym, subst, ◌∙◌, true, false, none, List, [], ◌∷◌,
  ◌++◌, map, arith, includes, length, str_eq, eq_iff, String, Bool-cases, Option-cases,
}
use automa_build.Runner.Branching.{FlowEdge, targets, walk}
use automa_build.Runner.Branching.Reach.{
  Has, Reaches, start, follow, walk_total, walk_complete, Reaches-Closed, includes-reverse,
  length-reverse, fresh-le,
}
use automa_build.FlowCanvas.Graph.{
  CanvasNode, CanvasEdge, CanvasGraph, is_known, live_edges, successors, walk_from, descendants,
  can_connect, connect, CanvasConnection, edge_of,
}

-- an edge as the runner's walk takes it
abbrev arc : CanvasEdge → FlowEdge
arc e = record { from = e.source; to = e.target; arm = none }

successors-targets :
    (es : List CanvasEdge) (id : String) → successors es id ≡ targets (map arc es) id
unfolding successors targets
successors-targets [] id = refl
successors-targets (e ∷ es) id = ground (arith, successors-targets es id)

walk_from-walk :
    (es : List CanvasEdge) (fuel : ℕ) (stack seen : List String)
    → walk_from es fuel stack seen ≡ walk (map arc es) fuel stack seen
unfolding walk_from walk
walk_from-walk es zero [] seen = refl
walk_from-walk es (suc fuel) [] seen = refl
walk_from-walk es zero (n ∷ stack) seen = refl
walk_from-walk es (suc fuel) (n ∷ stack) seen = elim (Bool-cases (includes seen n)) [
  | inl old ↦ rw (old, walk_from, walk) (walk_from-walk es fuel stack seen)
  | inr new ↦
      rw (new, walk_from, walk, successors-targets es n)
        (walk_from-walk es fuel (reverse (targets (map arc es) n) ++ stack) (seen ++ n ∷ []))
]

-- a path of one edge or more, or of none
pub data Leads (edges : List CanvasEdge) (from : String) : String → Type 0 where
  stay : Leads edges from from
  step : {k n : String} → Leads edges from k → Has (successors edges k) n → Leads edges from n

-- What the walk from the successors of a node reaches is what one edge and a path lead to.
Leads-Reaches :
    (es : List CanvasEdge) (root m n : String)
    → Has (successors es root) m
    → Leads es m n
    → Reaches (map arc es) (successors es root) n
Leads-Reaches es root m n h stay = start h
Leads-Reaches es root m n h (step {k} p s) =
    follow (Leads-Reaches es root m k h p)
      (subst (λ (xs : List String). Has xs n) (successors-targets es k) s)

length-map-arc : (es : List CanvasEdge) → length (map arc es) ≡ length es
length-map-arc [] = refl
length-map-arc (e ∷ es) = omega (arith, length-map-arc es)

-- `descendants` misses nothing that an edge and a path lead to.
descendants_complete :
    (graph : CanvasGraph) (root m n : String)
    → Has (successors (live_edges graph) root) m
    → Leads (live_edges graph) m n
    → includes (descendants graph root) n ≡ true
unfolding descendants
descendants_complete graph root m n h p =
    let es = live_edges graph in
    let first = successors es root in
    let fuel = length first + length es in
    let (out, e) =
      walk_total (map arc es) fuel (reverse first) []
        (omega (arith, length-reverse first, fresh-le (map arc es), length-map-arc es)) in
    let (closed, kept) = walk_complete (map arc es) fuel (reverse first) [] out (λ a b t u. cc) e in
    rw (walk_from-walk es fuel (reverse first) [], e)
      (Reaches-Closed (map arc es) first out closed (λ k t. kept k (includes-reverse first k ∙ t)) n
        (Leads-Reaches es root m n h p))

join-Leads : (es : List CanvasEdge) (a b c : String) → Leads es a b → Leads es b c → Leads es a c
join-Leads es a b c p stay = p
join-Leads es a b c p (step {k} q s) = step (join-Leads es a b k p q) s

successors-append :
    (es : List CanvasEdge) (c : CanvasEdge) (m n : String)
    → Has (successors (es ++ c ∷ []) m) n
    → Has (successors es m) n ⊎ ((c.source ≡ m) × (c.target ≡ n))
unfolding successors
successors-append [] c m n h = ground (arith, eq_iff c.source m, eq_iff c.target n)
successors-append (e ∷ es) c m n h = elim (Bool-cases (str_eq e.source m)) [
  | inl same ↦ elim (Bool-cases (str_eq e.target n)) [
    | inl here ↦ inl (ground arith)
    | inr other ↦ elim (successors-append es c m n (rw (same, other) at h)) [
      | inl old ↦ inl (ground arith)
      | inr new ↦ inr new
    ]
  ]
  | inr apart ↦ elim (successors-append es c m n (rw apart at h)) [
    | inl old ↦ inl (ground arith)
    | inr new ↦ inr new
  ]
]

-- A path over one edge more goes without it, or to its source and on from its target.
Leads-split :
    (es : List CanvasEdge) (c : CanvasEdge) (a b : String)
    → Leads (es ++ c ∷ []) a b
    → Leads es a b ⊎ (Leads es a c.source × Leads es c.target b)
Leads-split es c a b stay = inl stay
Leads-split es c a b (step {k} p s) = elim (Leads-split es c a k p) [
  | inl q ↦ elim (successors-append es c k b s) [
    | inl old ↦ inl (step q old)
    | inr (from, to) ↦ inr (
      subst (λ (x : String). Leads es a x) (sym from) q,
      subst (λ (x : String). Leads es c.target x) to stay,
    )
  ]
  | inr (q, r) ↦ elim (successors-append es c k b s) [
    | inl old ↦ inr (q, step r old)
    | inr (from, to) ↦ inr (q, subst (λ (x : String). Leads es c.target x) to stay)
  ]
]

-- No edge of a node is closed by a path back; an edge whose source is no node does not count.
abbrev pub IsAcyclic : CanvasGraph → Type 0
IsAcyclic graph =
    (m n : String) → Has (successors (live_edges graph) m) n → ¬ Leads (live_edges graph) n m

live_edges-append :
    (nodes : List CanvasNode) (es : List CanvasEdge) (c : CanvasEdge)
    → is_known nodes c.source ≡ true
    → live_edges (record { nodes = nodes; edges = es ++ c ∷ [] })
      ≡ live_edges (record { nodes = nodes; edges = es }) ++ c ∷ []
unfolding live_edges
live_edges-append nodes [] c h = ground arith
live_edges-append nodes (e ∷ es) c h = ground (arith, live_edges-append nodes es c h)

first_edge :
    (es : List CanvasEdge) (a b : String)
    → Leads es a b
    → (a ≡ b) ⊎ ((m : String) × Has (successors es a) m × Leads es m b)
first_edge es a b stay = inl refl
first_edge es a b (step {k} p s) = elim (first_edge es a k p) [
  | inl same ↦ inr (b, subst (λ (x : String). Has (successors es x) b) (sym same) s, stay)
  | inr (m, h, q) ↦ inr (m, h, step q s)
]

-- what `can_connect` has looked at
can_connect_lem :
    (graph : CanvasGraph) (c : CanvasEdge)
    → can_connect graph c ≡ none
    → (str_eq c.source c.target ≡ false)
      × (is_known graph.nodes c.source ≡ true)
      × (includes (descendants graph c.target) c.source ≡ false)
unfolding can_connect
can_connect_lem graph c h = ground arith

no_path_back :
    (graph : CanvasGraph) (c : CanvasEdge)
    → can_connect graph c ≡ none
    → ¬ Leads (live_edges graph) c.target c.source
no_path_back graph c h p =
    let (apart, known, unreached) = can_connect_lem graph c h in
    elim (first_edge (live_edges graph) c.target c.source p) [
      | inl same ↦ absurd (ground (arith, apart, same, eq_iff c.source c.target))
      | inr (m, e, q) ↦
          absurd (ground (arith, unreached, descendants_complete graph c.target m c.source e q))
    ]

append-IsAcyclic :
    (graph : CanvasGraph) (c : CanvasEdge)
    → ¬ Leads (live_edges graph) c.target c.source
    → IsAcyclic graph
    → (m n : String) → Has (successors (live_edges graph ++ c ∷ []) m) n
    → ¬ Leads (live_edges graph ++ c ∷ []) n m
append-IsAcyclic graph c back acyclic m n h p =
    let es = live_edges graph in
    elim (successors-append es c m n h) [
      | inl old ↦ elim (Leads-split es c n m p) [
        | inl q ↦ acyclic m n old q
        | inr (q, r) ↦ back (join-Leads es c.target n c.source (step r old) q)
      ]
      | inr (from, to) ↦ elim (Leads-split es c n m p) [
        | inl q ↦ back (
            subst (λ (x : String). Leads es c.target x) (sym from)
              (subst (λ (x : String). Leads es x m) (sym to) q))
        | inr (q, r) ↦ back (subst (λ (x : String). Leads es x c.source) (sym to) q)
      ]
    ]

-- However a connection is answered, it leaves a graph without cycles without cycles, where an edge
-- whose source is no node is not counted.
pub connect-IsAcyclic :
    (graph : CanvasGraph) (c : CanvasConnection) → IsAcyclic graph → IsAcyclic (connect graph c).1
unfolding connect
connect-IsAcyclic graph c acyclic = elim (Option-cases (can_connect graph (edge_of c))) [
  | inr (refusal, e) ↦ rw (e, connect) acyclic
  | inl e ↦
      let (apart, known, unreached) = can_connect_lem graph (edge_of c) e in
      rw (e, connect, live_edges-append graph.nodes graph.edges (edge_of c) known)
        (append-IsAcyclic graph (edge_of c) (no_path_back graph (edge_of c) e) acyclic)
]
