-- ===== src/SafeFetch/Blocklist/Permitted.antt =====
-- The addresses that a block list permits, bit by bit, and `validateAddress`
-- (packages/automa-safe-fetch/src/blocklist.ts).
use automa_build.Prelude.{
  ℕ, zero, suc, ◌≡◌, ◌≢◌, ◌⊎◌, ◌↔◌, inl, inr, refl, subst, ap, true, false, not, Option, none, some,
  List, [], ◌∷◌, arith, length, Text, All, Option-cases, Bool-cases, find, has_text, drop, is_none,
  get_or,
}
use automa_build.SafeFetch.Ip.{IsByte, unwrap_ipv4_mapped, is_ipv4_mapped}
use automa_build.SafeFetch.Cidr.{Cidr, cidr_contains}
use automa_build.SafeFetch.Cidr.Prefix.{Agree, bits, cidr_contains_iff}
use automa_build.SafeFetch.Blocklist.{
  Blocklist, validate_address, check_blocked, in_range, metadata_addresses, AddressVerdict,
  permitted, refused,
}
use automa_build.SafeFetch.Errors.{BlockReason, metadata_endpoint}

-- One of the ranges has the address: the same family, and the same first bits.
pub data Covers : List Cidr → List ℕ → Type 0 where
  here :
      {c : Cidr} {cs : List Cidr} {address : List ℕ}
      → length c.bytes ≡ length address
      → Agree c.prefix (bits c.bytes) (bits address)
      → Covers (c ∷ cs) address
  there :
      {c : Cidr} {cs : List Cidr} {address : List ℕ} → Covers cs address → Covers (c ∷ cs) address

abbrev pub Ranged : List Cidr → Type 0
Ranged ranges = All (λ (c : Cidr). All IsByte c.bytes) ranges

in_range-Covers :
    (ranges : List Cidr) (address : List ℕ)
    → Ranged ranges
    → All IsByte address
    → in_range ranges address ≡ true
    → Covers ranges address
in_range-Covers [] address r b h = cc
in_range-Covers (c ∷ cs) address r b h = elim (Bool-cases (cidr_contains c address)) [
  | inl e ↦ let (l, a) = (cidr_contains_iff c address r.0 b).0 e in here l a
  | inr e ↦ there (in_range-Covers cs address r.1 b (ground arith))
]

Covers-in_range :
    (ranges : List Cidr) (address : List ℕ)
    → Ranged ranges
    → All IsByte address
    → Covers ranges address
    → in_range ranges address ≡ true
Covers-in_range [] address r b m = elim m [ ]
Covers-in_range (c ∷ cs) address r b (here l a) =
    ground (arith, (cidr_contains_iff c address r.0 b).1 (l, a))
Covers-in_range (c ∷ cs) address r b (there m) = ground (arith, Covers-in_range cs address r.1 b m)

-- The address may be dialled: an allowed range has it, or it is no metadata endpoint, and an allowed
-- range has the IPv4 address that it maps, or it maps none and no blocked range has it.
pub data Permitted (list : Blocklist) (address : List ℕ) (address_text : Text) : Type 0 where
  by_range : Covers list.allowed address → Permitted list address address_text
  by_embedded :
      {inner : List ℕ}
      → has_text metadata_addresses address_text ≡ false
      → unwrap_ipv4_mapped address ≡ some inner
      → Covers list.allowed inner
      → Permitted list address address_text
  by_default :
      has_text metadata_addresses address_text ≡ false
      → unwrap_ipv4_mapped address ≡ none
      → ¬ Covers list.blocked address
      → Permitted list address address_text

abbrev pub WellRanged : Blocklist → Type 0
WellRanged list = Ranged list.blocked × Ranged list.allowed

All-drop : (n : ℕ) (xs : List ℕ) → All IsByte xs → All IsByte (drop n xs)
All-drop zero xs h = h
All-drop (suc n) [] h = tt
All-drop (suc n) (x ∷ xs) h = All-drop n xs h.1

value_absent : (xs : List ℕ) → none ≢ some xs
value_absent xs h = cc

unwrap-IsByte :
    (address inner : List ℕ)
    → All IsByte address
    → unwrap_ipv4_mapped address ≡ some inner
    → All IsByte inner
unfolding unwrap_ipv4_mapped
unwrap-IsByte address inner b h = elim (Bool-cases (is_ipv4_mapped address)) [
  | inl m ↦
      subst (λ (x : List ℕ). All IsByte x)
        (ap (λ (o : Option (List ℕ)). get_or o []) (rw (m, unwrap_ipv4_mapped) at h))
        (All-drop 12 address b)
  | inr m ↦ absurd (value_absent inner (rw (m, unwrap_ipv4_mapped) at h))
]

find-in_range :
    (ranges : List Cidr) (address : List ℕ)
    → is_none (find (λ (c : Cidr). cidr_contains c address) ranges) ≡ not (in_range ranges address)
find-in_range [] address = refl
find-in_range (c ∷ cs) address = ground (arith, find-in_range cs address)

check_blocked_iff :
    (list : Blocklist) (address : List ℕ) (t : Text)
    → check_blocked list address t ≡ permitted ↔ in_range list.blocked address ≡ false
unfolding check_blocked
check_blocked_iff list address t =
    let f = find-in_range list.blocked address in
    elim (Option-cases (find (λ (c : Cidr). cidr_contains c address) list.blocked)) [
      | inl e ↦ ground arith
      | inr (c, e) ↦ ground arith
    ]

pub AddressVerdict-cases :
    (v : AddressVerdict)
    → (v ≡ permitted) ⊎ ((reason : BlockReason) × (range : Text) × (v ≡ refused reason range))
AddressVerdict-cases permitted = inl refl
AddressVerdict-cases (refused reason range) = inr (reason, range, refl)

pub refused_not_permitted : (reason : BlockReason) (t : Text) → refused reason t ≢ permitted
refused_not_permitted reason t h = cc

metadata_refused :
    (list : Blocklist) (address : List ℕ) (t : Text)
    → in_range list.allowed address ≡ false
    → has_text metadata_addresses t ≡ true
    → validate_address list address t ≢ permitted
unfolding validate_address
metadata_refused list address t e m h = refused_not_permitted metadata_endpoint t (rw (e, m) at h)

validate_address-Permitted :
    (list : Blocklist) (address : List ℕ) (t : Text)
    → WellRanged list
    → All IsByte address
    → validate_address list address t ≡ permitted
    → Permitted list address t
unfolding validate_address
validate_address-Permitted list address t r b h =
    elim (Bool-cases (in_range list.allowed address)) [
      | inl e ↦ by_range (in_range-Covers list.allowed address r.1 b e)
      | inr e ↦
          let m : has_text metadata_addresses t ≡ false =
            elim (Bool-cases (has_text metadata_addresses t)) [
              | inl m ↦ absurd (metadata_refused list address t e m h)
              | inr m ↦ m
            ] in
          elim (Option-cases (unwrap_ipv4_mapped address)) [
            | inl u ↦ by_default m u (λ c. ground (
              arith,
              Covers-in_range list.blocked address r.0 b c,
              check_blocked_iff list address t,
            ))
            | inr (inner, u) ↦ by_embedded m u (
                in_range-Covers list.allowed inner r.1 (unwrap-IsByte address inner b u)
                  (ground arith))
          ]
    ]

Permitted-validate_address :
    (list : Blocklist) (address : List ℕ) (t : Text)
    → WellRanged list
    → All IsByte address
    → Permitted list address t
    → validate_address list address t ≡ permitted
unfolding validate_address
Permitted-validate_address list address t r b (by_range c) =
    ground (arith, Covers-in_range list.allowed address r.1 b c)
Permitted-validate_address list address t r b (by_embedded {inner} m u c) =
    ground (arith, Covers-in_range list.allowed inner r.1 (unwrap-IsByte address inner b u) c)
Permitted-validate_address list address t r b (by_default m u c) =
    elim (Bool-cases (in_range list.blocked address)) [
      | inl e ↦ absurd (c (in_range-Covers list.blocked address r.0 b e))
      | inr e ↦ ground (arith, check_blocked_iff list address t)
    ]

-- Where the ranges and the address are made of bytes, `validateAddress` lets the address through
-- exactly when an allowed range has it, or it is no metadata endpoint and either an allowed range
-- has the IPv4 address that it maps, or it maps none and no blocked range has it; the ranges are
-- compared bit by bit.
pub validate_address_iff :
    (list : Blocklist) (address : List ℕ) (t : Text)
    → WellRanged list
    → All IsByte address
    → validate_address list address t ≡ permitted ↔ Permitted list address t
validate_address_iff list address t r b =
    (validate_address-Permitted list address t r b, Permitted-validate_address list address t r b)
