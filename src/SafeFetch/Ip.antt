-- ===== src/SafeFetch/Ip.antt =====
-- packages/automa-safe-fetch/src/ip.ts: addresses as lists of bytes, their texts, and CIDR ranges.
-- The fixed buffer of `parseIpv6` is the concatenation of what is written to it and of the zeros
-- between; a text that is not an address gives `none`, as the source gives `null`.
pub mod Show
pub mod RoundTrip
pub mod Bytes
use automa_build.Prelude.{
  ℕ, zero, suc, ◌+◌, ◌-◌, ◌*◌, ◌/◌, ◌%◌, ◌<◌, Bool, not, ◌&&◌, ◌||◌, Option, none, some, List, [],
  ◌∷◌, ◌++◌, ltb, ◌==◌, if◌then◌else◌, length, Text, starts, ends, split, has_unit, drop, is_digit,
  is_hex, every, number,
}

abbrev pub IsByte : ℕ → Type 0
IsByte x = x < 256

unfoldable pub parse_octet : Text → Option ℕ
unfolding number
parse_octet part =
    if length part == 0 || ltb 3 (length part)
    then none
    else if not (every is_digit part)
    then none
    else if ltb 1 (length part) && starts (b'0' ∷ []) part
    then none
    else let value = number 10 0 part in if ltb 255 value then none else some value

unfoldable pub parse_octets : List Text → Option (List ℕ)
unfolding parse_octet
parse_octets [] = some []
parse_octets (part ∷ parts) = elim (parse_octet part) [
  | none ↦ none
  | some value ↦ elim (parse_octets parts) [ none ↦ none | some more ↦ some (value ∷ more) ]
]

unfoldable pub parse_ipv4 : Text → Option (List ℕ)
unfolding parse_octets split
parse_ipv4 input =
    let parts = split b'.' input in if not (length parts == 4) then none else parse_octets parts

-- `text.slice(1, -1)`
drop_last : Text → Text
drop_last [] = []
drop_last (c ∷ []) = []
drop_last (c ∷ d ∷ cs) = c ∷ drop_last (d ∷ cs)

strip_brackets : Text → Text
unfolding drop_last
strip_brackets [] = []
strip_brackets (c ∷ cs) = if c == b'[' && ends (b']' ∷ []) (c ∷ cs) then drop_last cs else c ∷ cs

-- The halves before and after the first `::`.
cut : Text → Option (Text × Text)
cut [] = none
cut (a ∷ []) = none
cut (a ∷ b ∷ r) =
    if a == b':' && b == b':'
    then some ([], r)
    else elim (cut (b ∷ r)) [ none ↦ none | some (head, tail) ↦ some (a ∷ head, tail) ]

-- `half.length > 0 ? half.split(':') : []`
groups_of : Text → List Text
unfolding split
groups_of [] = []
groups_of (c ∷ cs) = split b':' (c ∷ cs)

group_bytes : List Text → Option (List ℕ)
unfolding number
group_bytes [] = some []
group_bytes (group ∷ groups) =
    if length group == 0 || ltb 4 (length group) || not (every is_hex group)
    then none
    else elim (group_bytes groups) [
      | none ↦ none
      | some more ↦ let value = number 16 0 group in some (value / 256 ∷ value % 256 ∷ more)
    ]

-- An embedded IPv4 address at the end of the trailing groups, and the groups before it.
embedded_in : List Text → Option (List Text × List ℕ)
unfolding parse_ipv4
embedded_in [] = some ([], [])
embedded_in (last ∷ []) =
    if has_unit b'.' last
    then elim (parse_ipv4 last) [ none ↦ none | some bytes ↦ some ([], bytes) ]
    else some (last ∷ [], [])
embedded_in (group ∷ next ∷ groups) = elim (embedded_in (next ∷ groups)) [
  | none ↦ none
  | some (before, bytes) ↦ some (group ∷ before, bytes)
]

unfoldable pub zeros : ℕ → List ℕ
zeros zero = []
zeros (suc n) = 0 ∷ zeros n

-- eight groups without `::`
parse_full : Text → Option (List ℕ)
unfolding groups_of embedded_in group_bytes
parse_full text = elim (embedded_in (groups_of text)) [
  | none ↦ none
  | some (groups, embedded) ↦
      if not (length groups + length embedded / 2 == 8)
      then none
      else elim (group_bytes groups) [ none ↦ none | some bytes ↦ some (bytes ++ embedded) ]
]

-- up to seven groups round `::`
parse_compressed : Text → Text → Option (List ℕ)
unfolding groups_of embedded_in group_bytes zeros
parse_compressed head tail = elim (embedded_in (groups_of tail)) [
  | none ↦ none
  | some (groups, embedded) ↦
      let total = length (groups_of head) + length groups + length embedded / 2 in
      if ltb 7 total then none else elim (group_bytes (groups_of head)) [
        | none ↦ none
        | some before ↦ elim (group_bytes groups) [
          | none ↦ none
          | some after ↦ some (before ++ (zeros (16 - total * 2) ++ (after ++ embedded)))
        ]
      ]
]

unfoldable pub parse_ipv6 : Text → Option (List ℕ)
unfolding strip_brackets cut parse_full parse_compressed
parse_ipv6 input =
    let text = strip_brackets input in
    if has_unit b'%' text || length text == 0 then none else elim (cut text) [
      | none ↦ parse_full text
      | some (head, tail) ↦ elim (cut (b':' ∷ tail)) [
        | none ↦ parse_compressed head tail
        | some _ ↦ none
      ]
    ]

-- `ParsedIp`: the family is the one that the bytes were read as.
unfoldable pub parse_ip : Text → Option (List ℕ)
unfolding parse_ipv4 parse_ipv6
parse_ip input =
    if has_unit b':' input || starts (b'[' ∷ []) input then parse_ipv6 input else parse_ipv4 input

unfoldable pub is_ipv4_mapped : List ℕ → Bool
unfolding zeros
is_ipv4_mapped bytes = length bytes == 16 && starts (zeros 10 ++ 0xff ∷ 0xff ∷ []) bytes

-- `bytes.slice(12, 16)`
unfoldable pub unwrap_ipv4_mapped : List ℕ → Option (List ℕ)
unfolding is_ipv4_mapped
unwrap_ipv4_mapped bytes = if is_ipv4_mapped bytes then some (drop 12 bytes) else none
