-- ===== src/SafeFetch/Cidr.antt =====
-- packages/automa-safe-fetch/src/ip.ts, `Cidr`, `parseCidr` and `cidrContains`.
pub mod Prefix
use Prim.Native.Nat.{bit_and}
use automa_build.Prelude.{
  ℕ, zero, suc, ◌-◌, ◌*◌, ◌/◌, ◌%◌, ◌^◌, Bool, true, false, not, ◌&&◌, ◌||◌, Option, none, some,
  List, [], ◌∷◌, ltb, ◌==◌, if◌then◌else◌, length, Text, cut_last, get_or, is_digit, every, number,
}
use automa_build.SafeFetch.Ip.{parse_ip}

pub record Cidr : Type 0 where
  pub bytes : List ℕ
  pub prefix : ℕ
  pub source : Text

-- The family is 4 for four bytes and 6 for sixteen.
abbrev bits_of_family : List ℕ → ℕ
bits_of_family bytes = if length bytes == 4 then 32 else 128

unfoldable pub parse_cidr : Text → Option Cidr
unfolding cut_last parse_ip number
parse_cidr input = elim (cut_last b'/' input) [
  | none ↦ elim (parse_ip input) [
    | none ↦ none
    | some bytes ↦ some (record { bytes = bytes; prefix = bits_of_family bytes; source = input })
  ]
  | some (before, after) ↦ elim (parse_ip before) [
    | none ↦ none
    | some bytes ↦
        if length after == 0 || ltb 3 (length after) || not (every is_digit after)
        then none
        else let prefix = number 10 0 after in
          if ltb (bits_of_family bytes) prefix
          then none
          else some (record { bytes = bytes; prefix = prefix; source = input })
  ]
]

-- `bytes[i]`
unfoldable pub byte_at : List ℕ → ℕ → Option ℕ
byte_at [] n = none
byte_at (x ∷ xs) zero = some x
byte_at (x ∷ xs) (suc n) = byte_at xs n

-- `a !== b` of the loop, negated
unfoldable pub same_byte : Option ℕ → Option ℕ → Bool
same_byte none none = true
same_byte none (some y) = false
same_byte (some x) none = false
same_byte (some x) (some y) = x == y

-- the loop over the whole bytes, from the last one down
unfoldable pub same_bytes : ℕ → List ℕ → List ℕ → Bool
unfolding same_byte byte_at
same_bytes zero xs ys = true
same_bytes (suc n) xs ys = same_bytes n xs ys && same_byte (byte_at xs n) (byte_at ys n)

-- `(0xff << (8 - rest)) & 0xff`
unfoldable pub mask_of : ℕ → ℕ
mask_of rest = bit_and (0xff * 2 ^ (8 - rest)) 0xff

-- An absent byte counts as 0 under the mask.
unfoldable pub cidr_contains : Cidr → List ℕ → Bool
unfolding same_bytes mask_of byte_at
cidr_contains cidr address =
    let whole = cidr.prefix / 8 in
    let rest = cidr.prefix % 8 in
    if not (length cidr.bytes == length address)
    then false
    else if not (same_bytes whole cidr.bytes address)
    then false
    else if rest == 0
    then true
    else bit_and (get_or (byte_at cidr.bytes whole) 0) (mask_of rest)
      == bit_and (get_or (byte_at address whole) 0) (mask_of rest)
