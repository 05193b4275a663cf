-- ===== src/Runner/Soundness/Moves.antt =====
-- Changes of the whole table of steps, row by row.
use automa_build.Prelude.{
  ℕ, ◌≤◌, ◌≡◌, refl, Bool, true, List, [], ◌∷◌, arith, All, count, Bool-cases, inl, inr,
}
use automa_build.Runner.Types.{StepRow, Db}
use automa_build.Runner.Repository.Rows.{update_where, step_is}
use automa_build.Runner.Soundness.Rows.{IsSound, Keeps, Keeps-refl, Keeps-trans}

abbrev pub Evolves : List StepRow → List StepRow → Type 0
Evolves [] [] = Unit
Evolves (s ∷ ss) (t ∷ ts) = Keeps s t × Evolves ss ts
Evolves [] (t ∷ ts) = ⊥
Evolves (s ∷ ss) [] = ⊥

pub Evolves-refl : (xs : List StepRow) → All IsSound xs → Evolves xs xs
Evolves-refl [] h = tt
Evolves-refl (x ∷ xs) h = (Keeps-refl h.0, Evolves-refl xs h.1)

pub Evolves-trans : (xs ys zs : List StepRow) → Evolves xs ys → Evolves ys zs → Evolves xs zs
Evolves-trans [] [] [] h k = tt
Evolves-trans [] [] (z ∷ zs) h k = absurd k
Evolves-trans [] (y ∷ ys) zs h k = absurd h
Evolves-trans (x ∷ xs) [] zs h k = absurd h
Evolves-trans (x ∷ xs) (y ∷ ys) [] h k = absurd k
Evolves-trans (x ∷ xs) (y ∷ ys) (z ∷ zs) h k = (Keeps-trans h.0 k.0, Evolves-trans xs ys zs h.1 k.1)

pub Evolves-update :
    (P : StepRow → Type 0) (test : StepRow → Bool) (f : StepRow → StepRow) (xs : List StepRow)
    → ((s : StepRow) → P s → test s ≡ true → IsSound s → Keeps s (f s))
    → All IsSound xs
    → All P xs
    → Evolves xs (update_where test f xs)
Evolves-update P test f [] k h p = tt
Evolves-update P test f (x ∷ xs) k h p = elim (Bool-cases (test x)) [
  | inl hit ↦ (rw hit (k x p.0 hit h.0), Evolves-update P test f xs k h.1 p.1)
  | inr miss ↦ (rw miss (Keeps-refl h.0), Evolves-update P test f xs k h.1 p.1)
]

pub Evolves-IsSound : (xs ys : List StepRow) → Evolves xs ys → All IsSound ys
Evolves-IsSound [] [] h = tt
Evolves-IsSound [] (y ∷ ys) h = absurd h
Evolves-IsSound (x ∷ xs) [] h = absurd h
Evolves-IsSound (x ∷ xs) (y ∷ ys) h = (h.0.sound, Evolves-IsSound xs ys h.1)

-- A property of key and limits passes to the changed rows.
pub Evolves-All :
    (P : StepRow → Type 0) (xs ys : List StepRow)
    → ((s t : StepRow) → Keeps s t → P s → P t)
    → Evolves xs ys
    → All P xs
    → All P ys
Evolves-All P [] [] k h p = tt
Evolves-All P [] (y ∷ ys) k h p = absurd h
Evolves-All P (x ∷ xs) [] k h p = absurd h
Evolves-All P (x ∷ xs) (y ∷ ys) k h p = (k x y h.0 p.0, Evolves-All P xs ys k h.1 p.1)

pub Evolves-count :
    (started id : ℕ) (xs ys : List StepRow)
    → Evolves xs ys
    → count (step_is started id) ys ≡ count (step_is started id) xs
Evolves-count started id [] [] h = refl
Evolves-count started id [] (y ∷ ys) h = absurd h
Evolves-count started id (x ∷ xs) [] h = absurd h
Evolves-count started id (x ∷ xs) (y ∷ ys) h =
    ground (arith, h.0.same_start, h.0.same_id, Evolves-count started id xs ys h.1)

-- What a transaction that inserts no step does to the database.
pub record Moves (db db' : Db) : Type 0 where
  pub rows : Evolves db.steps db'.steps
  pub ids : db.next_id ≤ db'.next_id

pub Moves-same :
    {db db' : Db}
    → db'.steps ≡ db.steps
    → db.next_id ≤ db'.next_id
    → All IsSound db.steps
    → Moves db db'
Moves-same {db} e i h = record { rows = rw e (Evolves-refl db.steps h); ids = i }

pub Moves-trans : {a b c : Db} → Moves a b → Moves b c → Moves a c
Moves-trans {a} {b} {c} h k = record {
  rows = Evolves-trans a.steps b.steps c.steps h.rows k.rows;
  ids = omega (arith, h.ids, k.ids);
}

pub Moves-IsSound : {a b : Db} → Moves a b → All IsSound b.steps
Moves-IsSound {a} {b} h = Evolves-IsSound a.steps b.steps h.rows
