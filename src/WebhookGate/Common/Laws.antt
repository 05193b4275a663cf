-- ===== src/WebhookGate/Common/Laws.antt =====
-- The tolerance and the matching of signatures (packages/automa-webhook-gate/src/verify/common.ts).
use automa_build.Prelude.{
  ℕ, suc, ◌+◌, ◌*◌, ◌≤◌, ◌<◌, ◌≡◌, ◌⊎◌, ◌↔◌, inl, inr, true, false, List, ◌∷◌, arith, Text, ltb,
  ◌==◌, has_text, Bool-cases,
}
use automa_build.WebhookGate.Common.{
  ToleranceCheck, in_time, out_of_time, range_error, check_tolerance, is_finite, distance,
  last_date,
}

-- accepted, whatever the timestamp is put down as
abbrev pub IsInTime : ToleranceCheck → Type 0
IsInTime (in_time t) = Unit
IsInTime (out_of_time reason) = ⊥
IsInTime range_error = ⊥

-- A positive tolerance lets a finite timestamp through exactly when it lies within the tolerance
-- of now, before or after, or is past the last date that JavaScript has.
pub check_tolerance_iff :
    (epoch_seconds tolerance_seconds now : ℕ)
    → is_finite epoch_seconds ≡ true
    → 0 < tolerance_seconds
    → IsInTime (check_tolerance epoch_seconds tolerance_seconds now)
      ↔ ((now ≤ epoch_seconds * 1000 + tolerance_seconds * 1000)
          × (epoch_seconds * 1000 ≤ now + tolerance_seconds * 1000))
        ⊎ (last_date < epoch_seconds * 1000)
unfolding check_tolerance
check_tolerance_iff epoch tolerance now f p =
    let z : (tolerance == 0) ≡ false = ground arith in
    elim (Bool-cases (ltb last_date (epoch * 1000))) [
      | inl e ↦ rw (f, z, e, check_tolerance) (λ t. inr (ground arith), λ t. tt)
      | inr e ↦ elim (Bool-cases (ltb (tolerance * 1000) (distance now (epoch * 1000)))) [
        | inl g ↦ rw (f, z, e, g, check_tolerance) (λ t. elim t [ ], λ t. absurd (ground arith))
        | inr g ↦ rw (f, z, e, g, check_tolerance) (λ t. inl (ground arith), λ t. tt)
      ]
    ]

-- the first candidate that was presented, and none before it
pub data FirstMatch (presented : List Text) : List Text → ℕ → Type 0 where
  head : {c : Text} {cs : List Text} → has_text presented c ≡ true → FirstMatch presented (c ∷ cs) 0
  tail :
      {c : Text} {cs : List Text} {i : ℕ}
      → has_text presented c ≡ false
      → FirstMatch presented cs i
      → FirstMatch presented (c ∷ cs) (suc i)
