-- ===== src/Runner/Branching.antt =====
-- packages/automa-durable-runner/src/branching.ts, `reachableFrom` and `stepsToSkip`.
-- The stack of `reachableFrom` is a list with its end at the head; a `Set` is the list of its members
-- in the order of insertion. The condition language of the same file is not modelled here.
pub mod Reach
pub mod Skip
use mathlib.Core.List.{reverse}
use automa_build.Prelude.{
  ℕ, zero, suc, ◌+◌, ◌*◌, ◌/◌, ◌%◌, ◌-◌, Bool, true, false, not, ◌&&◌, ◌||◌, Option, none, some,
  List, [], ◌∷◌, ◌++◌, map, ltb, ◌==◌, if◌then◌else◌, keep, includes, length, str_eq, get_or, units,
  String,
}

pub data Arm : Type 0 where
  yes_arm no_arm : Arm

pub record FlowEdge : Type 0 where
  pub from : String
  pub to : String
  pub arm : Option Arm

-- `outgoing.get(node) ?? []`
unfoldable pub targets : List FlowEdge → String → List String
targets [] node = []
targets (e ∷ edges) node =
    if str_eq e.from node then e.to ∷ targets edges node else targets edges node

-- the `while` loop of `reachableFrom`; `none` means that the fuel ran out
unfoldable pub walk : List FlowEdge → ℕ → List String → List String → Option (List String)
walk edges fuel [] seen = some seen
walk edges zero (node ∷ stack) seen = none
walk edges (suc fuel) (node ∷ stack) seen = elim (includes seen node) [
  | true ↦ walk edges fuel stack seen
  | false ↦ walk edges fuel (reverse (targets edges node) ++ stack) (seen ++ node ∷ [])
]

-- Each round takes one entry off the stack, and each edge puts one on it at most once.
unfoldable pub reachable_from : List FlowEdge → List String → List String
unfolding walk targets
reachable_from edges from = get_or (walk edges (length from + length edges) (reverse from) []) []

-- JavaScript's `sort` without a comparison: by UTF-16 code units.
units_le : List ℕ → List ℕ → Bool
units_le [] ys = true
units_le (x ∷ xs) [] = false
units_le (x ∷ xs) (y ∷ ys) = ltb x y || (x == y && units_le xs ys)

insert : String → List String → List String
unfolding units units_le
insert x [] = x ∷ []
insert x (y ∷ ys) = if units_le (units x) (units y) then x ∷ y ∷ ys else y ∷ insert x ys

sort : List String → List String
unfolding insert
sort [] = []
sort (x ∷ xs) = insert x (sort xs)

abbrev is_arm : Arm → Arm → Bool
is_arm yes_arm yes_arm = true
is_arm no_arm no_arm = true
is_arm _ _ = false

abbrev has_arm : Option Arm → Bool
has_arm none = false
has_arm (some a) = true

abbrev arm_is : Arm → Option Arm → Bool
arm_is taken none = false
arm_is taken (some a) = is_arm a taken

-- the successors of a branch over its taken arm, and over the other one
unfoldable pub taken_heads : List FlowEdge → String → Arm → List String
taken_heads edges branch taken =
    map (λ (e : FlowEdge). e.to)
      (keep (λ e. arm_is taken e.arm)
        (keep (λ (e : FlowEdge). str_eq e.from branch && has_arm e.arm) edges))

unfoldable pub untaken_heads : List FlowEdge → String → Arm → List String
untaken_heads edges branch taken =
    map (λ (e : FlowEdge). e.to)
      (keep (λ e. not (arm_is taken e.arm))
        (keep (λ (e : FlowEdge). str_eq e.from branch && has_arm e.arm) edges))

unfoldable pub steps_to_skip : List FlowEdge → String → Arm → List String
unfolding reachable_from taken_heads untaken_heads sort
steps_to_skip edges branch taken = elim (untaken_heads edges branch taken) [
  | [] ↦ []
  | head ∷ more ↦
      let kept = reachable_from edges (taken_heads edges branch taken) in
      let abandoned = reachable_from edges (head ∷ more) in
      sort (keep (λ node. not (includes kept node)) abandoned)
]
