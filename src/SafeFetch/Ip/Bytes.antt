-- ===== src/SafeFetch/Ip/Bytes.antt =====
-- What the parsers of packages/automa-safe-fetch/src/ip.ts put into their buffers.
use automa_build.Prelude.{
  ℕ, zero, suc, ◌+◌, ◌*◌, ◌-◌, ◌/◌, ◌%◌, ◌<◌, ◌≡◌, ◌⊎◌, inl, inr, refl, subst, ap, length-append,
  All-append, true, ◌||◌, some, List, [], ◌∷◌, ◌++◌, arith, leb, length, Text, All, Option-cases,
  Bool-cases, has_unit, starts, is_hex, every, hex_value, number,
}
use automa_build.SafeFetch.Ip.{
  IsByte, parse_ip, parse_ipv4, parse_ipv6, group_bytes, embedded_in, parse_full, parse_compressed,
  strip_brackets, cut, groups_of, zeros,
}
use automa_build.SafeFetch.Ip.RoundTrip.{parse_ipv4_iff}

hex_value_bound : (c : ℕ) → is_hex c ≡ true → hex_value c < 16
unfolding hex_value
hex_value_bound c h = ground arith

group_bound :
    (group : Text)
    → leb (length group) 4 ≡ true
    → every is_hex group ≡ true
    → number 16 0 group < 65536
unfolding number
group_bound [] s h = omega arith
group_bound (a ∷ []) s h = ground (arith, hex_value_bound a)
group_bound (a ∷ b ∷ []) s h = ground (arith, hex_value_bound a, hex_value_bound b)
group_bound (a ∷ b ∷ c ∷ []) s h =
    ground (arith, hex_value_bound a, hex_value_bound b, hex_value_bound c)
group_bound (a ∷ b ∷ c ∷ d ∷ []) s h =
    ground (arith, hex_value_bound a, hex_value_bound b, hex_value_bound c, hex_value_bound d)
group_bound (a ∷ b ∷ c ∷ d ∷ e ∷ r) s h = absurd (ground arith)

-- two bytes for a group
group_bytes-IsByte :
    (groups : List Text) (bytes : List ℕ)
    → group_bytes groups ≡ some bytes
    → All IsByte bytes × (length bytes ≡ 2 * length groups)
unfolding group_bytes
group_bytes-IsByte [] bytes h =
    let e : [] ≡ bytes = cc in subst (λ (x : List ℕ). All IsByte x × (length x ≡ 0)) e (tt, refl)
group_bytes-IsByte (group ∷ groups) bytes h = elim (Option-cases (group_bytes groups)) [
  | inl e ↦ ground arith
  | inr (more, e) ↦
      let (all, size) = group_bytes-IsByte groups more e in
      let value = number 16 0 group in
      let bound : value < 65536 = group_bound group (ground arith) (ground arith) in
      let g : value / 256 ∷ value % 256 ∷ more ≡ bytes = ground arith in
      subst (λ (x : List ℕ). All IsByte x × (length x ≡ 2 * suc (length groups))) g
        ((omega arith, (omega arith, all)), omega arith)
]

-- an embedded address, or none
abbrev IsEmbedded : List ℕ → Type 0
IsEmbedded bytes = All IsByte bytes × ((length bytes ≡ 0) ⊎ (length bytes ≡ 4))

embedded_in-IsEmbedded :
    (groups before : List Text) (bytes : List ℕ)
    → embedded_in groups ≡ some (before, bytes)
    → IsEmbedded bytes
unfolding embedded_in
embedded_in-IsEmbedded [] before bytes h =
    let e : [] ≡ bytes = ground arith in subst (λ (x : List ℕ). IsEmbedded x) e (tt, inl refl)
embedded_in-IsEmbedded (last ∷ []) before bytes h = elim (Bool-cases (has_unit b'.' last)) [
  | inl dot ↦ elim (Option-cases (parse_ipv4 last)) [
    | inl e ↦ ground arith
    | inr (four, e) ↦
        let (size, all, _) = (parse_ipv4_iff last four).0 e in
        let g : four ≡ bytes = ground arith in
        subst (λ (x : List ℕ). IsEmbedded x) g (all, inr size)
  ]
  | inr plain ↦
      let e : [] ≡ bytes = ground arith in subst (λ (x : List ℕ). IsEmbedded x) e (tt, inl refl)
]
embedded_in-IsEmbedded (group ∷ next ∷ groups) before bytes h =
    elim (Option-cases (embedded_in (next ∷ groups))) [
      | inl e ↦ ground arith
      | inr ((first, inner), e) ↦
          let r = embedded_in-IsEmbedded (next ∷ groups) first inner e in
          let g : inner ≡ bytes = ground arith in subst (λ (x : List ℕ). IsEmbedded x) g r
    ]

zeros-IsByte : (n : ℕ) → All IsByte (zeros n) × (length (zeros n) ≡ n)
unfolding zeros
zeros-IsByte zero = (tt, refl)
zeros-IsByte (suc n) = let (all, size) = zeros-IsByte n in ((omega arith, all), ap suc size)

abbrev IsIpv6 : List ℕ → Type 0
IsIpv6 bytes = All IsByte bytes × (length bytes ≡ 16)

parse_full-IsIpv6 : (text : Text) (bytes : List ℕ) → parse_full text ≡ some bytes → IsIpv6 bytes
unfolding parse_full
parse_full-IsIpv6 text bytes h = elim (Option-cases (embedded_in (groups_of text))) [
  | inl e ↦ ground arith
  | inr ((groups, embedded), e) ↦ elim (Option-cases (group_bytes groups)) [
    | inl f ↦ ground arith
    | inr (before, f) ↦
        let (all, size) = embedded_in-IsEmbedded (groups_of text) groups embedded e in
        let (first, twice) = group_bytes-IsByte groups before f in
        let eight : length groups + length embedded / 2 ≡ 8 = ground arith in
        let g : before ++ embedded ≡ bytes = ground arith in
        subst (λ (x : List ℕ). IsIpv6 x) g
          (
            All-append IsByte before embedded first all,
            ground (arith, length-append before embedded),
          )
  ]
]

parse_compressed-IsIpv6 :
    (head tail : Text) (bytes : List ℕ) → parse_compressed head tail ≡ some bytes → IsIpv6 bytes
unfolding parse_compressed
parse_compressed-IsIpv6 head tail bytes h = elim (Option-cases (embedded_in (groups_of tail))) [
  | inl e ↦ ground arith
  | inr ((groups, embedded), e) ↦ elim (Option-cases (group_bytes (groups_of head))) [
    | inl f ↦ ground arith
    | inr (before, f) ↦ elim (Option-cases (group_bytes groups)) [
      | inl f' ↦ ground arith
      | inr (after, f') ↦
          let total = length (groups_of head) + length groups + length embedded / 2 in
          let (all, size) = embedded_in-IsEmbedded (groups_of tail) groups embedded e in
          let (first, twice) = group_bytes-IsByte (groups_of head) before f in
          let (second, twice') = group_bytes-IsByte groups after f' in
          let (none_set, gap) = zeros-IsByte (16 - total * 2) in
          let g : before ++ (zeros (16 - total * 2) ++ (after ++ embedded)) ≡ bytes =
            ground arith in
          subst (λ (x : List ℕ). IsIpv6 x) g
            (
              All-append IsByte before (zeros (16 - total * 2) ++ (after ++ embedded)) first (
                  All-append IsByte (zeros (16 - total * 2)) (after ++ embedded) none_set
                    (All-append IsByte after embedded second all)),
              ground (
                arith,
                length-append before (zeros (16 - total * 2) ++ (after ++ embedded)),
                length-append (zeros (16 - total * 2)) (after ++ embedded),
                length-append after embedded,
              ),
            )
    ]
  ]
]

parse_ipv6-IsIpv6 : (input : Text) (bytes : List ℕ) → parse_ipv6 input ≡ some bytes → IsIpv6 bytes
unfolding parse_ipv6
parse_ipv6-IsIpv6 input bytes h = elim (Option-cases (cut (strip_brackets input))) [
  | inl e ↦ parse_full-IsIpv6 (strip_brackets input) bytes (ground arith)
  | inr ((head, tail), e) ↦ parse_compressed-IsIpv6 head tail bytes (ground arith)
]

-- An address that `parseIp` reads is four bytes or sixteen.
pub parse_ip-IsByte :
    (input : Text) (bytes : List ℕ)
    → parse_ip input ≡ some bytes
    → All IsByte bytes × ((length bytes ≡ 4) ⊎ (length bytes ≡ 16))
unfolding parse_ip
parse_ip-IsByte input bytes h =
    elim (Bool-cases (has_unit b':' input || starts (b'[' ∷ []) input)) [
      | inl six ↦ let r = parse_ipv6-IsIpv6 input bytes (ground arith) in (r.0, inr r.1)
      | inr four ↦ let r = (parse_ipv4_iff input bytes).0 (ground arith) in (r.1, inl r.0)
    ]
