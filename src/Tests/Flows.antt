-- ===== src/Tests/Flows.antt =====
-- Branches on concrete flows.
use automa_build.Prelude.{◌≡◌, ◌↔◌, refl, Option, none, some, List, [], ◌∷◌, String}
use automa_build.Runner.Branching.{
  FlowEdge, Arm, yes_arm, no_arm, reachable_from, steps_to_skip, taken_heads, untaken_heads,
}
use automa_build.Runner.Branching.Reach.{Has, Reaches, reachable_from_iff}
use automa_build.Runner.Branching.Skip.{steps_to_skip_iff}

abbrev edge : String → String → Option Arm → FlowEdge
edge a b arm = record { from = a; to = b; arm = arm }

-- two arms that join again
abbrev diamond : List FlowEdge
diamond =
    edge "start" "check" none
    ∷ edge "check" "ship" (some yes_arm)
    ∷ edge "check" "refund" (some no_arm)
    ∷ edge "refund" "apologise" none
    ∷ edge "ship" "report" none
    ∷ edge "apologise" "report" none
    ∷ []

abbrev circle : List FlowEdge
circle = edge "a" "b" none ∷ edge "b" "a" none ∷ []

skipped_on_yes : steps_to_skip diamond "check" yes_arm ≡ "apologise" ∷ "refund" ∷ []
unfolding steps_to_skip
skipped_on_yes = refl

circle_ends : reachable_from circle ("a" ∷ []) ≡ "a" ∷ "b" ∷ []
unfolding reachable_from
circle_ends = refl

reachable_from_iff_example :
    Has (reachable_from circle ("a" ∷ [])) "b" ↔ Reaches circle ("a" ∷ []) "b"
reachable_from_iff_example = reachable_from_iff circle ("a" ∷ []) "b"

steps_to_skip_iff_example : Has (steps_to_skip diamond "check" yes_arm) "report" ↔ (
    Reaches diamond (untaken_heads diamond "check" yes_arm) "report"
    × (¬ Reaches diamond (taken_heads diamond "check" yes_arm) "report"))
steps_to_skip_iff_example = steps_to_skip_iff diamond "check" yes_arm "report"
