-- ===== src/Prelude/Numerals.antt =====
-- Numerals in texts, and white space: JavaScript's `Number`, `parseInt`, `toString` and `trim`.
use Prim.Native.Nat.{ℕ, zero, suc, ◌+◌, ◌-◌, ◌*◌, ◌/◌, ◌%◌}
use mathlib.Core.Bool.{Bool, true, false, ◌&&◌, ◌||◌}
use mathlib.Core.List.{[], ◌∷◌, ◌++◌, reverse}
use automa_build.Prelude.Tests.{ltb, leb, ◌==◌, if◌then◌else◌}
use automa_build.Prelude.Texts.{Text}

abbrev pub is_digit : ℕ → Bool
is_digit c = leb b'0' c && leb c b'9'

abbrev pub is_hex : ℕ → Bool
is_hex c = is_digit c || (leb b'a' c && leb c b'f') || (leb b'A' c && leb c b'F')

abbrev pub every : (ℕ → Bool) → Text → Bool
every test [] = true
every test (c ∷ cs) = test c && every test cs

-- the value of a digit in either case
unfoldable pub hex_value : ℕ → ℕ
hex_value c = if is_digit c then c - b'0' else if leb b'a' c then c - b'a' + 10 else c - b'A' + 10

-- `Number(part)` for base 10 and `parseInt(group, 16)`, on the digits read so far
unfoldable pub number : ℕ → ℕ → Text → ℕ
unfolding hex_value
number base n [] = n
number base n (c ∷ cs) = number base (n * base + hex_value c) cs

digit : ℕ → ℕ
digit n = if ltb n 10 then b'0' + n else b'a' + (n - 10)

-- `n.toString(base)`; as many rounds as the number itself are enough.
digits : ℕ → ℕ → ℕ → Text
unfolding digit
digits base zero n = digit n ∷ []
digits base (suc fuel) n = elim (ltb n base) [
  | true ↦ digit n ∷ []
  | false ↦ digits base fuel (n / base) ++ digit (n % base) ∷ []
]

unfoldable pub show_number : ℕ → ℕ → Text
unfolding digits
show_number base n = digits base n n

-- `trim`: white space and line ends
is_space : ℕ → Bool
is_space c =
    (leb 9 c && leb c 13)
    || c == 32
    || c == 0xa0
    || c == 0x1680
    || (leb 0x2000 c && leb c 0x200a)
    || c == 0x2028
    || c == 0x2029
    || c == 0x202f
    || c == 0x205f
    || c == 0x3000
    || c == 0xfeff

trim_start : Text → Text
unfolding is_space
trim_start [] = []
trim_start (c ∷ cs) = if is_space c then trim_start cs else c ∷ cs

unfoldable pub trim : Text → Text
unfolding trim_start
trim text = reverse (trim_start (reverse (trim_start text)))

-- /^[0-9]+$/
abbrev pub all_digits : Text → Bool
all_digits [] = false
all_digits (c ∷ cs) = every is_digit (c ∷ cs)
