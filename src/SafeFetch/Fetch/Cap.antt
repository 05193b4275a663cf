-- ===== src/SafeFetch/Fetch/Cap.antt =====
-- packages/automa-safe-fetch/src/safe-fetch.ts, `buildResponse`: the cap on the bytes of a body.
use automa_build.Prelude.{
  ℕ, ◌+◌, ◌≤◌, ◌≡◌, Bool, true, false, List, [], ◌∷◌, arith, ltb, inl, inr, Bool-cases, ap,
  if◌then◌else◌, length, Text,
}

-- what the reader of a body sees: its chunks, and whether the cap was passed
pub record Body : Type 0 where
  pub chunks : List Text
  pub is_cut : Bool

-- the handler of `data` over all chunks, with `received` bytes so far
unfoldable pub deliver : ℕ → ℕ → List Text → Body
deliver cap received [] = record { chunks = []; is_cut = false }
deliver cap received (chunk ∷ more) =
    let rest = deliver cap (received + length chunk) more in
    if ltb cap (received + length chunk)
    then record { chunks = []; is_cut = true }
    else record { chunks = chunk ∷ rest.chunks; is_cut = rest.is_cut }

abbrev pub total : List Text → ℕ
total [] = 0
total (chunk ∷ more) = length chunk + total more

deliver_from :
    (cap received : ℕ) (chunks : List Text)
    → received ≤ cap
    → (received + total (deliver cap received chunks).chunks ≤ cap)
      × ((deliver cap received chunks).is_cut ≡ ltb cap (received + total chunks))
      × ((deliver cap received chunks).is_cut ≡ false
          → (deliver cap received chunks).chunks ≡ chunks)
unfolding deliver
deliver_from cap received [] h = ground arith
deliver_from cap received (chunk ∷ more) h = elim (Bool-cases (ltb cap (received + length chunk))) [
  | inl e ↦ rw (e, deliver) (omega arith, ground arith, λ f. absurd (ground arith))
  | inr e ↦
      let r = deliver_from cap (received + length chunk) more (ground arith) in
      rw (e, deliver)
        (omega (arith, r.0), ground arith, λ f. ap (λ (x : List Text). chunk ∷ x) (r.2 f))
]

-- A body never delivers more bytes than the cap; it is cut exactly when all its chunks together
-- have more, and is delivered whole where it is not cut.
pub deliver-IsCapped :
    (cap : ℕ) (chunks : List Text)
    → (total (deliver cap 0 chunks).chunks ≤ cap)
      × ((deliver cap 0 chunks).is_cut ≡ ltb cap (total chunks))
      × ((deliver cap 0 chunks).is_cut ≡ false → (deliver cap 0 chunks).chunks ≡ chunks)
deliver-IsCapped cap chunks =
    let r = deliver_from cap 0 chunks (omega arith) in (omega arith, ground arith, r.2)
