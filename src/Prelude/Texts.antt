-- ===== src/Prelude/Texts.antt =====
-- Texts as JavaScript sees them, lists of UTF-16 code units, and the operations of `String` on them.
use Prim.Native.Nat.{ℕ, ◌+◌, ◌-◌, ◌/◌, ◌%◌}
use Prim.Native.Char.{code}
use Prim.Native.String.{String}
use mathlib.Core.Path.{◌≡◌, refl}
use mathlib.Core.Logic.{◌≢◌, inl, inr}
use mathlib.Core.Bool.{Bool, true, false, ◌&&◌, ◌||◌}
use mathlib.Core.Option.{Option, none, some}
use mathlib.Core.List.{List, [], ◌∷◌, ◌++◌}
use native.Mathlib.Omega.{arith}
use automa_build.Prelude.Tests.{ltb, leb, ◌==◌, if◌then◌else◌, Bool-cases}

abbrev pub Text : Type 0
Text = List ℕ

unfoldable pub utf16 : ℕ → Text
utf16 c =
    if ltb c 0x10000
    then c ∷ []
    else (0xd800 + (c - 0x10000) / 0x400) ∷ (0xdc00 + (c - 0x10000) % 0x400) ∷ []

-- the text of a literal
unfoldable pub units : String → Text
unfolding utf16
units String.[] = []
units (String.◌∷◌ c s) = utf16 (code c) ++ units s

abbrev pub text_eq : Text → Text → Bool
text_eq [] [] = true
text_eq [] (y ∷ ys) = false
text_eq (x ∷ xs) [] = false
text_eq (x ∷ xs) (y ∷ ys) = x == y && text_eq xs ys

pub text_eq→≡ : (a b : Text) → text_eq a b ≡ true → a ≡ b
text_eq→≡ [] [] h = refl
text_eq→≡ [] (y ∷ ys) h = cc
text_eq→≡ (x ∷ xs) [] h = cc
text_eq→≡ (x ∷ xs) (y ∷ ys) h = ground (arith, text_eq→≡ xs ys)

pub text_eq_refl : (a : Text) → text_eq a a ≡ true
text_eq_refl [] = refl
text_eq_refl (x ∷ xs) = ground (arith, text_eq_refl xs)

-- `a.startsWith(b)` at `starts b a`
abbrev pub starts : Text → Text → Bool
starts [] ys = true
starts (x ∷ xs) [] = false
starts (x ∷ xs) (y ∷ ys) = x == y && starts xs ys

-- `a.endsWith(b)` at `ends b a`
abbrev pub ends : Text → Text → Bool
ends xs [] = text_eq xs []
ends xs (y ∷ ys) = text_eq xs (y ∷ ys) || ends xs ys

-- `list.includes(t)`, and `set.has(t)`
abbrev pub has_text : List Text → Text → Bool
has_text [] t = false
has_text (x ∷ xs) t = text_eq x t || has_text xs t

-- `t.includes(c)` for a single unit
abbrev pub has_unit : ℕ → Text → Bool
has_unit c [] = false
has_unit c (x ∷ xs) = x == c || has_unit c xs

-- `t.split(c)` for a single unit
push : ℕ → List Text → List Text
push c [] = (c ∷ []) ∷ []
push c (x ∷ xs) = (c ∷ x) ∷ xs

unfoldable pub split : ℕ → Text → List Text
unfolding push
split sep [] = [] ∷ []
split sep (c ∷ cs) = let rest = split sep cs in if c == sep then [] ∷ rest else push c rest

-- `parts.join(c)`
abbrev pub join : ℕ → List Text → Text
join sep [] = []
join sep (x ∷ []) = x
join sep (x ∷ y ∷ r) = x ++ sep ∷ join sep (y ∷ r)

pub split-plain :
    (sep : ℕ) (x rest : Text)
    → has_unit sep x ≡ false
    → split sep (x ++ sep ∷ rest) ≡ x ∷ split sep rest
unfolding split
split-plain sep [] rest h = ground arith
split-plain sep (c ∷ x) rest h = ground (arith, split-plain sep x rest)

pub split-last : (sep : ℕ) (x : Text) → has_unit sep x ≡ false → split sep x ≡ x ∷ []
unfolding split
split-last sep [] h = refl
split-last sep (c ∷ x) h = ground (arith, split-last sep x)

-- the parts before and after the last `c`, where there is one
unfoldable pub cut_last : ℕ → Text → Option (Text × Text)
cut_last c [] = none
cut_last c (x ∷ xs) = elim (cut_last c xs) [
  | none ↦ if x == c then some ([], xs) else none
  | some (before, after) ↦ some (x ∷ before, after)
]

-- `t.toUpperCase()` on the ASCII letters
unfoldable pub upper : Text → Text
upper [] = []
upper (c ∷ cs) = (if leb 97 c && leb c 122 then c - 32 else c) ∷ upper cs

-- `t.toLowerCase()` on the ASCII letters, which are all that a host name of a parsed URL holds
unfoldable pub lower : Text → Text
lower [] = []
lower (c ∷ cs) = (if leb 65 c && leb c 90 then c + 32 else c) ∷ lower cs

join-push : (sep c : ℕ) (xs : List Text) → xs ≢ [] → join sep (push c xs) ≡ c ∷ join sep xs
unfolding push
join-push sep c [] h = absurd (h refl)
join-push sep c (x ∷ []) h = refl
join-push sep c (x ∷ y ∷ ys) h = refl

join-empty : (sep : ℕ) (xs : List Text) → xs ≢ [] → join sep ([] ∷ xs) ≡ sep ∷ join sep xs
join-empty sep [] h = absurd (h refl)
join-empty sep (x ∷ xs) h = refl

split_some : (sep : ℕ) (t : Text) → split sep t ≢ []
unfolding split push
split_some sep [] h = cc
split_some sep (c ∷ t) h = elim (Bool-cases (c == sep)) [
  | inl e ↦ ground arith
  | inr e ↦ elim (split sep t) [ [] ↦ ground arith | x ∷ xs ↦ ground arith ]
]

pub join-split : (sep : ℕ) (t : Text) → join sep (split sep t) ≡ t
unfolding split
join-split sep [] = refl
join-split sep (c ∷ t) = ground (
  arith,
  join-push sep c (split sep t) (split_some sep t),
  join-empty sep (split sep t) (split_some sep t),
  join-split sep t,
)
