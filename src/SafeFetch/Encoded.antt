-- ===== src/SafeFetch/Encoded.antt =====
-- packages/automa-safe-fetch/src/ip.ts, `detectEncodedIpLiteral`: IPv4 addresses in the other forms
-- that `inet_aton` reads.
use automa_build.Prelude.{
  all_digits, ℕ, Bool, false, not, ◌&&◌, ◌||◌, Option, none, some, List, [], ◌∷◌, ltb, leb, ◌==◌,
  if◌then◌else◌, length, Text, has_unit, text_eq, split, any, is_hex, every, trim,
}

pub data EncodedIpForm : Type 0 where
  decimal hexadecimal octal shorthand : EncodedIpForm

abbrev is_octal_digit : ℕ → Bool
is_octal_digit c = leb b'0' c && leb c b'7'

-- /^0[xX][0-9a-fA-F]+$/
abbrev is_hex_literal : Text → Bool
is_hex_literal (a ∷ x ∷ c ∷ cs) = a == b'0' && (x == b'x' || x == b'X') && every is_hex (c ∷ cs)
is_hex_literal _ = false

-- /^0[0-7]+$/
abbrev is_octal_literal : Text → Bool
is_octal_literal (a ∷ c ∷ cs) = a == b'0' && every is_octal_digit (c ∷ cs)
is_octal_literal _ = false

-- the verdict of the loop on one part: any other label is that of a real host name
abbrev is_numeric_part : Text → Bool
is_numeric_part part = is_hex_literal part || is_octal_literal part || all_digits part

-- a part for which the loop sets `sawOctal`
abbrev is_octal_part : Text → Bool
is_octal_part part = not (is_hex_literal part) && is_octal_literal part

of_parts : List Text → Option EncodedIpForm
of_parts parts =
    if ltb (length parts) 2 || ltb 4 (length parts)
    then none
    else if any (λ part. not (is_numeric_part part)) parts
    then none
    else if any (λ part. is_hex_literal part) parts
    then some hexadecimal
    else if any (λ part. is_octal_part part) parts
    then some octal
    else if ltb (length parts) 4
    then some shorthand
    else none

unfoldable pub detect_encoded_ip_literal : Text → Option EncodedIpForm
unfolding trim of_parts split
detect_encoded_ip_literal raw_host =
    let host = trim raw_host in
    if length host == 0 || has_unit b':' host
    then none
    else if is_hex_literal host
    then some hexadecimal
    else if all_digits host
    then if text_eq host (b'0' ∷ [])
      then some shorthand
      else if is_octal_literal host
      then some octal
      else some decimal
    else of_parts (split b'.' host)
