-- ===== src/SafeFetch/Cidr/Prefix.antt =====
-- The bits of an address, and `cidrContains` (packages/automa-safe-fetch/src/ip.ts).
use Prim.Native.Nat.{bit_and}
use automa_build.Prelude.{
  ℕ, zero, suc, ◌+◌, ◌*◌, ◌/◌, ◌%◌, ◌<◌, ◌≡◌, ◌↔◌, refl, sym, subst, Bool, true, ◌&&◌, List, [],
  ◌∷◌, ◌++◌, arith, ◌==◌, length, All, all_below, all_below_sound, get_or, ◌||◌,
}
use automa_build.SafeFetch.Ip.{IsByte}
use automa_build.SafeFetch.Cidr.{Cidr, cidr_contains, same_bytes, same_byte, byte_at, mask_of}

abbrev masked_at : ℕ → ℕ → ℕ → Bool
masked_at rest step x = bit_and x (mask_of rest) == x / step * step

masked-table :
    (all_below 256 (masked_at 1 128)
      && all_below 256 (masked_at 2 64)
      && all_below 256 (masked_at 3 32)
      && all_below 256 (masked_at 4 16)
      && all_below 256 (masked_at 5 8)
      && all_below 256 (masked_at 6 4)
      && all_below 256 (masked_at 7 2))
    ≡ true
unfolding all_below mask_of
masked-table = refl

-- the eight bits of a byte, the highest first
abbrev byte_bits : ℕ → List ℕ
byte_bits x =
    x / 128 % 2
    ∷ x / 64 % 2
    ∷ x / 32 % 2
    ∷ x / 16 % 2
    ∷ x / 8 % 2
    ∷ x / 4 % 2
    ∷ x / 2 % 2
    ∷ x % 2
    ∷ []

unfoldable pub bits : List ℕ → List ℕ
bits [] = []
bits (x ∷ xs) = byte_bits x ++ bits xs

-- Two lists agree on their first `n` entries.
abbrev pub Agree : ℕ → List ℕ → List ℕ → Type 0
Agree zero xs ys = Unit
Agree (suc n) [] [] = Unit
Agree (suc n) [] (y ∷ ys) = ⊥
Agree (suc n) (x ∷ xs) [] = ⊥
Agree (suc n) (x ∷ xs) (y ∷ ys) = (x ≡ y) × Agree n xs ys

masked :
    (rest step x : ℕ)
    → all_below 256 (masked_at rest step) ≡ true
    → IsByte x
    → bit_and x (mask_of rest) ≡ x / step * step
masked rest step x t h = ground (arith, all_below_sound 256 (masked_at rest step) x t h)

-- The bits that the mask leaves are the first ones.
top_bits :
    (rest x y : ℕ) (xs ys : List ℕ)
    → 0 < rest
    → rest < 8
    → IsByte x
    → IsByte y
    → (bit_and x (mask_of rest) == bit_and y (mask_of rest)) ≡ true
      ↔ Agree rest (byte_bits x ++ xs) (byte_bits y ++ ys)
top_bits zero x y xs ys pos h p q = absurd (omega arith)
top_bits (suc zero) x y xs ys pos h p q =
    let t = masked-table in
    let a = masked 1 128 x (ground arith) p in
    let b = masked 1 128 y (ground arith) q in ground (arith, a, b)
top_bits (suc (suc zero)) x y xs ys pos h p q =
    let t = masked-table in
    let a = masked 2 64 x (ground arith) p in
    let b = masked 2 64 y (ground arith) q in ground (arith, a, b)
top_bits (suc (suc (suc zero))) x y xs ys pos h p q =
    let t = masked-table in
    let a = masked 3 32 x (ground arith) p in
    let b = masked 3 32 y (ground arith) q in ground (arith, a, b)
top_bits (suc (suc (suc (suc zero)))) x y xs ys pos h p q =
    let t = masked-table in
    let a = masked 4 16 x (ground arith) p in
    let b = masked 4 16 y (ground arith) q in ground (arith, a, b)
top_bits (suc (suc (suc (suc (suc zero))))) x y xs ys pos h p q =
    let t = masked-table in
    let a = masked 5 8 x (ground arith) p in
    let b = masked 5 8 y (ground arith) q in ground (arith, a, b)
top_bits (suc (suc (suc (suc (suc (suc zero)))))) x y xs ys pos h p q =
    let t = masked-table in
    let a = masked 6 4 x (ground arith) p in
    let b = masked 6 4 y (ground arith) q in ground (arith, a, b)
top_bits (suc (suc (suc (suc (suc (suc (suc zero))))))) x y xs ys pos h p q =
    let t = masked-table in
    let a = masked 7 2 x (ground arith) p in
    let b = masked 7 2 y (ground arith) q in ground (arith, a, b)
top_bits (suc (suc (suc (suc (suc (suc (suc (suc rest)))))))) x y xs ys pos h p q =
    absurd (omega arith)

-- the comparison of the masked bytes, and the loop before it
abbrev rest_equal : ℕ → ℕ → List ℕ → List ℕ → Bool
rest_equal whole rest xs ys =
    rest == 0
    || bit_and (get_or (byte_at xs whole) 0) (mask_of rest)
      == bit_and (get_or (byte_at ys whole) 0) (mask_of rest)

abbrev prefix_equal : ℕ → ℕ → List ℕ → List ℕ → Bool
prefix_equal whole rest xs ys = same_bytes whole xs ys && rest_equal whole rest xs ys

cidr_contains-split :
    (c : Cidr) (address : List ℕ)
    → cidr_contains c address ≡ (
        length c.bytes == length address
        && prefix_equal (c.prefix / 8) (c.prefix % 8) c.bytes address)
unfolding cidr_contains
cidr_contains-split c address = ground arith

same_bytes-cons :
    (n x y : ℕ) (xs ys : List ℕ)
    → same_bytes (suc n) (x ∷ xs) (y ∷ ys) ≡ (x == y && same_bytes n xs ys)
unfolding same_bytes same_byte byte_at
same_bytes-cons zero x y xs ys = ground arith
same_bytes-cons (suc n) x y xs ys = ground (arith, same_bytes-cons n x y xs ys)

same_bytes-nil : (n : ℕ) → same_bytes n [] [] ≡ true
unfolding same_bytes same_byte byte_at
same_bytes-nil zero = refl
same_bytes-nil (suc n) = ground (arith, same_bytes-nil n)

Agree-nil : (n : ℕ) → Agree n [] []
Agree-nil zero = tt
Agree-nil (suc n) = tt

abbrev eight_more : ℕ → ℕ
eight_more k = suc (suc (suc (suc (suc (suc (suc (suc k)))))))

-- A whole byte is its eight bits.
whole_byte :
    (k x y : ℕ) (xs ys : List ℕ)
    → IsByte x
    → IsByte y
    → (x ≡ y) × Agree k xs ys ↔ Agree (eight_more k) (byte_bits x ++ xs) (byte_bits y ++ ys)
whole_byte k x y xs ys p q = (
  λ h. rw h.0 (refl, (refl, (refl, (refl, (refl, (refl, (refl, (refl, h.1)))))))),
  λ h. (omega arith, h.1.1.1.1.1.1.1.1),
)

prefix_equal_iff :
    (whole rest : ℕ) (xs ys : List ℕ)
    → rest < 8
    → length xs ≡ length ys
    → All IsByte xs
    → All IsByte ys
    → prefix_equal whole rest xs ys ≡ true ↔ Agree (rest + whole * 8) (bits xs) (bits ys)
unfolding bits same_bytes byte_at
prefix_equal_iff whole rest [] [] h e p q =
    (λ _. Agree-nil (rest + whole * 8), λ _. ground (arith, same_bytes-nil whole))
prefix_equal_iff whole rest [] (y ∷ ys) h e p q = absurd (omega arith)
prefix_equal_iff whole rest (x ∷ xs) [] h e p q = absurd (omega arith)
prefix_equal_iff zero zero (x ∷ xs) (y ∷ ys) h e p q = ground arith
prefix_equal_iff zero (suc rest) (x ∷ xs) (y ∷ ys) h e p q =
    let t = top_bits (suc rest) x y (bits xs) (bits ys) (omega arith) h p.0 q.0 in
    let n : suc rest + 0 ≡ suc rest = omega arith in
    rw n (λ g. t.0 (ground arith), λ g. let b = t.1 g in ground arith)
prefix_equal_iff (suc whole) rest (x ∷ xs) (y ∷ ys) h e p q =
    let more = prefix_equal_iff whole rest xs ys h (omega (arith, e)) p.1 q.1 in
    let byte = whole_byte (rest + whole * 8) x y (bits xs) (bits ys) p.0 q.0 in
    let n : rest + suc whole * 8 ≡ eight_more (rest + whole * 8) = omega arith in
    rw (n, same_bytes-cons whole x y xs ys)
      (
        λ g. byte.0 (ground arith, more.0 (ground arith)),
        λ g. let b = byte.1 g in let m = more.1 b.1 in ground arith,
      )

-- On addresses made of bytes, `cidrContains` holds exactly where the two have the same number of
-- bytes and agree in the first bits, as many as the prefix says.
pub cidr_contains_iff :
    (c : Cidr) (address : List ℕ)
    → All IsByte c.bytes
    → All IsByte address
    → cidr_contains c address ≡ true
      ↔ (length c.bytes ≡ length address) × Agree c.prefix (bits c.bytes) (bits address)
cidr_contains_iff c address p q =
    let e : c.prefix % 8 + c.prefix / 8 * 8 ≡ c.prefix = omega arith in
    rw (cidr_contains-split c address) (
      λ g.
          let l : length c.bytes ≡ length address = ground arith in
          let f =
            prefix_equal_iff (c.prefix / 8) (c.prefix % 8) c.bytes address (omega arith) l p q in
          (l, subst (λ (n : ℕ). Agree n (bits c.bytes) (bits address)) e (f.0 (ground arith))),
      λ g.
          let f =
            prefix_equal_iff (c.prefix / 8) (c.prefix % 8) c.bytes address (omega arith) g.0 p q in
          let b = f.1 (subst (λ (n : ℕ). Agree n (bits c.bytes) (bits address)) (sym e) g.1) in
          ground arith,
    )
