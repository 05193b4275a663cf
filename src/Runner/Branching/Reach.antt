-- ===== src/Runner/Branching/Reach.antt =====
-- Paths along the edges of a flow, and `reachableFrom` (src/branching.ts).
use mathlib.Core.List.{reverse, reverse-cons}
use automa_build.Prelude.{
  ℕ, zero, suc, ◌+◌, ◌≤◌, ◌≡◌, ◌↔◌, inl, inr, refl, sym, ap, subst, ◌∙◌, true, false, not, ◌||◌,
  some, List, [], ◌∷◌, ◌++◌, arith, includes, length, eq_iff, String, Bool-cases, count,
}
use automa_build.Runner.Branching.{FlowEdge, targets, walk, reachable_from}

-- a member of a list of names
abbrev pub Has : List String → String → Type 0
Has xs n = includes xs n ≡ true

pub includes-append :
    (xs ys : List String) (n : String) → includes (xs ++ ys) n ≡ (includes xs n || includes ys n)
includes-append [] ys n = refl
includes-append (x ∷ xs) ys n = ground (arith, includes-append xs ys n)

pub includes-reverse : (xs : List String) (n : String) → includes (reverse xs) n ≡ includes xs n
includes-reverse [] n = refl
includes-reverse (x ∷ xs) n =
    rw (reverse-cons x xs, includes-append (reverse xs) (x ∷ []) n)
      (ground (arith, includes-reverse xs n))

length-append : (xs ys : List String) → length (xs ++ ys) ≡ length xs + length ys
length-append [] ys = omega arith
length-append (x ∷ xs) ys = omega (arith, length-append xs ys)

pub length-reverse : (xs : List String) → length (reverse xs) ≡ length xs
length-reverse [] = refl
length-reverse (x ∷ xs) =
    rw (reverse-cons x xs) (omega (arith, length-append (reverse xs) (x ∷ []), length-reverse xs))

-- What can be reached from the nodes of `from` along the edges, with no step or more.
pub data Reaches (edges : List FlowEdge) (from : List String) : String → Type 0 where
  start : {n : String} → Has from n → Reaches edges from n
  follow : {m n : String} → Reaches edges from m → Has (targets edges m) n → Reaches edges from n

-- the edges whose source has not been seen
abbrev pub fresh : List FlowEdge → List String → ℕ
fresh edges seen = count (λ (e : FlowEdge). not (includes seen e.from)) edges

fresh-visit :
    (edges : List FlowEdge) (seen : List String) (node : String)
    → includes seen node ≡ false
    → fresh edges (seen ++ node ∷ []) + length (targets edges node) ≡ fresh edges seen
unfolding targets
fresh-visit [] seen node h = omega arith
fresh-visit (e ∷ edges) seen node h = ground (
  arith,
  fresh-visit edges seen node h,
  includes-append seen (node ∷ []) e.from,
  eq_iff e.from node,
  eq_iff node e.from,
)

pub fresh-le : (edges : List FlowEdge) → fresh edges [] ≤ length edges
fresh-le [] = omega arith
fresh-le (e ∷ edges) = omega (arith, fresh-le edges)

module _ (edges : List FlowEdge) where
  -- With as much fuel as entries on the stack and unused edges, the loop ends.
  pub walk_total :
      (fuel : ℕ) (stack seen : List String)
      → length stack + fresh edges seen ≤ fuel
      → (out : List String) × (walk edges fuel stack seen ≡ some out)
  unfolding walk
  walk_total fuel [] seen h = (seen, refl)
  walk_total zero (node ∷ stack) seen h = absurd (omega arith)
  walk_total (suc fuel) (node ∷ stack) seen h = elim (Bool-cases (includes seen node)) [
    | inl old ↦ rw (old, walk) (walk_total fuel stack seen (omega arith))
    | inr new ↦
        rw (new, walk)
          (walk_total fuel (reverse (targets edges node) ++ stack) (seen ++ node ∷ []) (
            omega (
              arith,
              length-append (reverse (targets edges node)) stack,
              length-reverse (targets edges node),
              fresh-visit edges seen node new,
            )))
  ]

  -- Seen or still to be looked at.
  abbrev pub Known : List String → List String → String → Type 0
  Known stack seen n = (includes seen n || includes stack n) ≡ true

  -- What a seen node leads to is known.
  abbrev pub Closed : List String → List String → Type 0
  Closed stack seen = (m n : String) → Has seen m → Has (targets edges m) n → Known stack seen n

  Known-drop :
      (stack seen : List String) (node n : String)
      → Has seen node
      → Known (node ∷ stack) seen n
      → Known stack seen n
  Known-drop stack seen node n old k = ground (arith, eq_iff node n)

  Known-visit :
      (stack seen : List String) (node n : String)
      → Known (node ∷ stack) seen n
      → Known (reverse (targets edges node) ++ stack) (seen ++ node ∷ []) n
  Known-visit stack seen node n k = ground (
    arith,
    includes-append seen (node ∷ []) n,
    includes-append (reverse (targets edges node)) stack n,
  )

  Closed-visit :
      (stack seen : List String) (node : String)
      → Closed (node ∷ stack) seen
      → Closed (reverse (targets edges node) ++ stack) (seen ++ node ∷ [])
  Closed-visit stack seen node c m n h t = elim (Bool-cases (includes seen m)) [
    | inl old ↦ Known-visit stack seen node n (c m n old t)
    | inr new ↦ ground (
      arith,
      includes-append seen (node ∷ []) m,
      includes-append seen (node ∷ []) n,
      includes-append (reverse (targets edges node)) stack n,
      includes-reverse (targets edges node) n,
      eq_iff node m,
      ap (λ (k : String). includes (targets edges k) n) {x = node} {y = m},
    )
  ]

  -- The loop keeps all that is known, and its result is closed.
  pub walk_complete :
      (fuel : ℕ) (stack seen out : List String)
      → Closed stack seen
      → walk edges fuel stack seen ≡ some out
      → Closed [] out × ((n : String) → Known stack seen n → Has out n)
  unfolding walk
  walk_complete fuel [] seen out c e =
      let same : seen ≡ out = cc in
      (
        subst (λ (o : List String). Closed [] o) same c,
        λ n k. subst (λ (o : List String). Has o n) same (ground arith),
      )
  walk_complete zero (node ∷ stack) seen out c e = cc
  walk_complete (suc fuel) (node ∷ stack) seen out c e = elim (Bool-cases (includes seen node)) [
    | inl old ↦
        let r =
          walk_complete fuel stack seen out
            (λ m n h t. Known-drop stack seen node n old (c m n h t)) (rw (old, walk) at e) in
        (r.0, λ n k. r.1 n (Known-drop stack seen node n old k))
    | inr new ↦
        let r =
          walk_complete fuel (reverse (targets edges node) ++ stack) (seen ++ node ∷ []) out
            (Closed-visit stack seen node c) (rw (new, walk) at e) in
        (r.0, λ n k. r.1 n (Known-visit stack seen node n k))
  ]

  Known-source :
      (from stack seen : List String) (node n : String)
      → ((n : String) → Known (node ∷ stack) seen n → Reaches edges from n)
      → Known (reverse (targets edges node) ++ stack) (seen ++ node ∷ []) n
      → Reaches edges from n
  Known-source from stack seen node n k h = elim (Bool-cases (includes (targets edges node) n)) [
    | inl t ↦ follow (k node (ground (arith, eq_iff node node))) t
    | inr f ↦ k n (
        ground (
          arith,
          includes-append seen (node ∷ []) n,
          includes-append (reverse (targets edges node)) stack n,
          includes-reverse (targets edges node) n,
        ))
  ]

  pub Reaches-Closed :
      (from out : List String)
      → Closed [] out
      → ((n : String) → Has from n → Has out n)
      → (n : String) → Reaches edges from n
      → Has out n
  Reaches-Closed from out c k n (start h) = k n h
  Reaches-Closed from out c k n (follow {m} r t) =
      ground (arith, c m n (Reaches-Closed from out c k m r) t)

  -- Nothing is seen that the edges do not reach.
  pub walk_sound :
      (from : List String) (fuel : ℕ) (stack seen out : List String)
      → ((n : String) → Known stack seen n → Reaches edges from n)
      → walk edges fuel stack seen ≡ some out
      → (n : String) → Has out n
      → Reaches edges from n
  unfolding walk
  walk_sound from fuel [] seen out k e =
      let same : seen ≡ out = cc in
      λ n h. k n (subst (λ (o : List String). Known [] o n) (sym same) (ground arith))
  walk_sound from zero (node ∷ stack) seen out k e = cc
  walk_sound from (suc fuel) (node ∷ stack) seen out k e = elim (Bool-cases (includes seen node)) [
    | inl old ↦
        walk_sound from fuel stack seen out (λ n h. k n (ground arith)) (rw (old, walk) at e)
    | inr new ↦
        walk_sound from fuel (reverse (targets edges node) ++ stack) (seen ++ node ∷ []) out
          (λ n h. Known-source from stack seen node n k h) (rw (new, walk) at e)
  ]

  -- `reachableFrom` returns the nodes that the edges reach from its starting set, all of them and no
  -- others.
  pub reachable_from_iff :
      (from : List String) (n : String) → Has (reachable_from edges from) n ↔ Reaches edges from n
  unfolding reachable_from
  reachable_from_iff from n =
      let (out, e) =
        walk_total (length from + length edges) (reverse from) []
          (omega (arith, length-reverse from, fresh-le edges)) in
      let (closed, kept) =
        walk_complete (length from + length edges) (reverse from) [] out (λ m n h t. cc) e in
      rw e (
        walk_sound from (length from + length edges) (reverse from) [] out
            (λ k h. start (sym (includes-reverse from k) ∙ h)) e n,
        Reaches-Closed from out closed (λ k h. kept k (includes-reverse from k ∙ h)) n,
      )
