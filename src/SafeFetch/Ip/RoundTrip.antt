-- ===== src/SafeFetch/Ip/RoundTrip.antt =====
-- `parseIpv4` and `ipToString` (packages/automa-safe-fetch/src/ip.ts) on four bytes.
use mathlib.Core.List.{map}
use automa_build.Prelude.{
  ℕ, suc, ◌+◌, ◌≡◌, ◌↔◌, refl, subst, ap, ◌∙◌, All, inl, inr, Option-cases, join-split, Bool, true,
  false, not, ◌&&◌, Option, none, some, List, [], ◌∷◌, arith, ◌==◌, length, Text, has_unit, join,
  split, split-plain, split-last, all_below, all_below_sound, if◌then◌else◌, ltb, ◌/◌, ◌%◌, text_eq,
  text_eq→≡, hex_value, number, show_number,
}
use automa_build.SafeFetch.Ip.{IsByte, parse_ipv4, parse_octet, parse_octets}
use automa_build.SafeFetch.Ip.Show.{ip_to_string}

abbrev equals : Option ℕ → ℕ → Bool
equals none n = false
equals (some m) n = m == n

abbrev octet_back : ℕ → Bool
octet_back n = equals (parse_octet (show_number 10 n)) n && not (has_unit b'.' (show_number 10 n))

octet_table : all_below 256 octet_back ≡ true
unfolding all_below parse_octet show_number
octet_table = refl

parse_octet-show_number : (n : ℕ) → IsByte n → parse_octet (show_number 10 n) ≡ some n
parse_octet-show_number n h = ground (arith, all_below_sound 256 octet_back n octet_table h)

show_number-plain : (n : ℕ) → IsByte n → has_unit b'.' (show_number 10 n) ≡ false
show_number-plain n h = ground (arith, all_below_sound 256 octet_back n octet_table h)

-- The text of four bytes is read back as those bytes.
pub parse_ipv4-ip_to_string :
    (a b c d : ℕ)
    → IsByte a
    → IsByte b
    → IsByte c
    → IsByte d
    → parse_ipv4 (ip_to_string (a ∷ b ∷ c ∷ d ∷ [])) ≡ some (a ∷ b ∷ c ∷ d ∷ [])
unfolding parse_ipv4 ip_to_string parse_octets
parse_ipv4-ip_to_string a b c d p q r s = ground (
  arith,
  split-plain b'.' (show_number 10 a) (join b'.' (map (show_number 10) (b ∷ c ∷ d ∷ [])))
      (show_number-plain a p),
  split-plain b'.' (show_number 10 b) (join b'.' (map (show_number 10) (c ∷ d ∷ [])))
      (show_number-plain b q),
  split-plain b'.' (show_number 10 c) (show_number 10 d) (show_number-plain c r),
  split-last b'.' (show_number 10 d) (show_number-plain d s),
  parse_octet-show_number a p,
  parse_octet-show_number b q,
  parse_octet-show_number c r,
  parse_octet-show_number d s,
)

-- the digits of a number below 1000 with no leading zero
abbrev short_digits : ℕ → Text
short_digits n =
    if ltb n 10
    then (b'0' + n) ∷ []
    else if ltb n 100
    then (b'0' + n / 10) ∷ (b'0' + n % 10) ∷ []
    else (b'0' + n / 100) ∷ (b'0' + n / 10 % 10) ∷ (b'0' + n % 10) ∷ []

digits_table : all_below 256 (λ n. text_eq (show_number 10 n) (short_digits n)) ≡ true
unfolding all_below show_number
digits_table = refl

show_number-short : (n : ℕ) → IsByte n → show_number 10 n ≡ short_digits n
show_number-short n h =
    text_eq→≡ (show_number 10 n) (short_digits n)
      (all_below_sound 256 (λ n. text_eq (show_number 10 n) (short_digits n)) n digits_table h)

-- A part that is read has no other text than the number's own.
octet_text : (part : Text) (n : ℕ) → parse_octet part ≡ some n → IsByte n × (short_digits n ≡ part)
unfolding parse_octet number hex_value
octet_text [] n h = cc
octet_text (a ∷ []) n h = ground arith
octet_text (a ∷ b ∷ []) n h = ground arith
octet_text (a ∷ b ∷ c ∷ []) n h = ground arith
octet_text (a ∷ b ∷ c ∷ d ∷ part) n h = ground arith

-- What the texts of the parts say of the bytes.
abbrev Spells : List Text → List ℕ → Type 0
Spells parts bytes =
    All IsByte bytes × (map (show_number 10) bytes ≡ parts) × (length bytes ≡ length parts)

parse_octets-Spells :
    (parts : List Text) (bytes : List ℕ) → parse_octets parts ≡ some bytes → Spells parts bytes
unfolding parse_octets
parse_octets-Spells [] bytes h =
    let e : [] ≡ bytes = cc in subst (λ (x : List ℕ). Spells [] x) e (tt, refl, refl)
parse_octets-Spells (part ∷ parts) bytes h = elim (Option-cases (parse_octet part)) [
  | inl e ↦ ground arith
  | inr (n, e) ↦ elim (Option-cases (parse_octets parts)) [
    | inl f ↦ ground arith
    | inr (more, f) ↦
        let g : n ∷ more ≡ bytes = ground arith in
        let (all, texts, count) = parse_octets-Spells parts more f in
        let (byte, short) = octet_text part n e in
        let s = show_number-short n byte in
        subst (λ (x : List ℕ). Spells (part ∷ parts) x) g ((byte, all), ground arith, ap suc count)
  ]
]

ip_to_string-four :
    (bytes : List ℕ)
    → length bytes ≡ 4
    → ip_to_string bytes ≡ join b'.' (map (show_number 10) bytes)
unfolding ip_to_string
ip_to_string-four bytes e = rw e refl

read_back :
    (bytes : List ℕ)
    → length bytes ≡ 4
    → All IsByte bytes
    → parse_ipv4 (ip_to_string bytes) ≡ some bytes
read_back (a ∷ b ∷ c ∷ d ∷ []) e h = parse_ipv4-ip_to_string a b c d h.0 h.1.0 h.1.1.0 h.1.1.1.0
read_back [] e h = absurd (omega arith)
read_back (a ∷ []) e h = absurd (omega arith)
read_back (a ∷ b ∷ []) e h = absurd (omega arith)
read_back (a ∷ b ∷ c ∷ []) e h = absurd (omega arith)
read_back (a ∷ b ∷ c ∷ d ∷ x ∷ r) e h = absurd (omega arith)

-- `parseIpv4` accepts exactly the texts that `ipToString` gives to four bytes, and reads each as
-- the bytes that it was given for: no address has a second spelling.
pub parse_ipv4_iff :
    (t : Text) (bytes : List ℕ)
    → parse_ipv4 t ≡ some bytes ↔ (length bytes ≡ 4) × All IsByte bytes × (ip_to_string bytes ≡ t)
unfolding parse_ipv4
parse_ipv4_iff t bytes = (
  λ h.
      let f : parse_octets (split b'.' t) ≡ some bytes = ground arith in
      let n : length (split b'.' t) ≡ 4 = ground arith in
      let (all, texts, count) = parse_octets-Spells (split b'.' t) bytes f in
      let four = count ∙ n in
      (four, all, ip_to_string-four bytes four ∙ ap (join b'.') texts ∙ join-split b'.' t),
  λ h. subst (λ (x : Text). parse_ipv4 x ≡ some bytes) h.2 (read_back bytes h.0 h.1),
)
