-- ===== src/Runner/Branching/Skip.antt =====
-- What a resolved branch leaves behind (src/branching.ts, `stepsToSkip`).
use automa_build.Prelude.{
  ◌≡◌, ◌↔◌, refl, ap, ◌∙◌, Bool, true, false, not, ◌&&◌, ◌||◌, List, [], ◌∷◌, arith, includes, keep,
  str_eq, eq_iff, String,
}
use automa_build.Runner.Branching.{
  FlowEdge, Arm, reachable_from, steps_to_skip, taken_heads, untaken_heads, insert, sort,
}
use automa_build.Runner.Branching.Reach.{Has, Reaches, reachable_from_iff, start, follow}

includes-insert :
    (x : String) (xs : List String) (n : String)
    → includes (insert x xs) n ≡ (str_eq x n || includes xs n)
unfolding insert
includes-insert x [] n = refl
includes-insert x (y ∷ ys) n = ground (arith, includes-insert x ys n)

includes-sort : (xs : List String) (n : String) → includes (sort xs) n ≡ includes xs n
unfolding sort
includes-sort [] n = refl
includes-sort (x ∷ xs) n = includes-insert x (sort xs) n ∙ ground (arith, includes-sort xs n)

includes-keep :
    (test : String → Bool) (xs : List String) (n : String)
    → includes (keep test xs) n ≡ (test n && includes xs n)
includes-keep test [] n = ground arith
includes-keep test (x ∷ xs) n =
    ground (arith, includes-keep test xs n, eq_iff x n, ap test {x = x} {y = n})

-- Nothing is reached from nowhere.
not-Reaches-nil : {edges : List FlowEdge} {n : String} → ¬ Reaches edges [] n
not-Reaches-nil (start h) = cc
not-Reaches-nil (follow r t) = not-Reaches-nil r

but_not : (b c : Bool) → (not b && c) ≡ true → (c ≡ true) × (b ≡ false)
but_not b c h = ground arith

clash : (b c : Bool) → b ≡ true → (not b && c) ≡ true → ⊥
clash b c h k = ground arith

but_not_intro : (b c : Bool) → c ≡ true → ¬ (b ≡ true) → (not b && c) ≡ true
but_not_intro true c h k = absurd (k refl)
but_not_intro false c h k = h

skip-of_heads :
    (edges : List FlowEdge) (branch : String) (taken : Arm) (heads : List String)
    → untaken_heads edges branch taken ≡ heads
    → (n : String)
    → Has (steps_to_skip edges branch taken) n
      ↔ (Reaches edges heads n × (¬ Reaches edges (taken_heads edges branch taken) n))
unfolding steps_to_skip
skip-of_heads edges branch taken [] e n =
    rw (e, steps_to_skip) ((λ h. cc), (λ h. absurd (not-Reaches-nil h.0)))
skip-of_heads edges branch taken (head ∷ more) e n =
    let kept = reachable_from_iff edges (taken_heads edges branch taken) n in
    let left = reachable_from_iff edges (head ∷ more) n in
    let members =
      includes-sort
        (keep (λ node. not (includes (reachable_from edges (taken_heads edges branch taken)) node))
          (reachable_from edges (head ∷ more)))
        n
      ∙ includes-keep
          (λ node. not (includes (reachable_from edges (taken_heads edges branch taken)) node))
          (reachable_from edges (head ∷ more)) n in
    rw (e, steps_to_skip, members)
      (
        (λ h. (left.0 (but_not _ _ h).0, (λ r. clash _ _ (kept.1 r) h))),
        (λ h. but_not_intro _ _ (left.1 h.0) (λ k. h.1 (kept.0 k))),
      )

-- After a branch resolves, a step is skipped exactly when the untaken arm's successors reach it and
-- the taken arm's do not. So a step where the two arms join again is kept.
pub steps_to_skip_iff :
    (edges : List FlowEdge) (branch : String) (taken : Arm) (n : String)
    → Has (steps_to_skip edges branch taken) n ↔ (
        Reaches edges (untaken_heads edges branch taken) n
        × (¬ Reaches edges (taken_heads edges branch taken) n))
steps_to_skip_iff edges branch taken n =
    skip-of_heads edges branch taken (untaken_heads edges branch taken) refl n
