-- ===== src/SafeFetch/Blocklist/Defaults.antt =====
-- The IPv4 ranges that packages/automa-safe-fetch/src/blocklist.ts refuses by default, in numbers.
use automa_build.Prelude.{
  ℕ, ◌≤◌, ◌<◌, ◌≡◌, ◌≢◌, ◌⊎◌, inl, inr, refl, subst, sym, ap, Option, none, some, List, [], ◌∷◌,
  ◌++◌, arith, Text, units, ltb, Bool-cases, Option-cases, get_or,
}
use automa_build.SafeFetch.Ip.{IsByte, unwrap_ipv4_mapped, is_ipv4_mapped, zeros}
use automa_build.SafeFetch.Cidr.{Cidr, parse_cidr}
use automa_build.SafeFetch.Cidr.Prefix.{bits}
use automa_build.SafeFetch.Blocklist.{
  Blocklist, BlocklistOptions, create_blocklist, compile, default_blocked_ipv4,
  default_blocked_ipv6, validate_address, permitted,
}
use automa_build.SafeFetch.Blocklist.Permitted.{
  Permitted, Permitted.by_range, Permitted.by_embedded, Permitted.by_default, Covers, Covers.here,
  Covers.there, validate_address_iff,
}
use automa_build.SafeFetch.Blocklist.Compiled.{
  create_blocklist-WellRanged, create_blocklist_lem, all_blocked,
}

-- loopback, private, link-local, shared, documentation, benchmark, multicast and reserved addresses
abbrev pub IsSpecial : ℕ → ℕ → ℕ → Type 0
IsSpecial a b c =
    (a ≡ 0)
    ⊎ (a ≡ 10)
    ⊎ ((a ≡ 100) × (64 ≤ b) × (b < 128))
    ⊎ (a ≡ 127)
    ⊎ ((a ≡ 169) × (b ≡ 254))
    ⊎ ((a ≡ 172) × (16 ≤ b) × (b < 32))
    ⊎ ((a ≡ 192) × (b ≡ 0) × (c ≡ 0))
    ⊎ ((a ≡ 192) × (b ≡ 0) × (c ≡ 2))
    ⊎ ((a ≡ 192) × (b ≡ 168))
    ⊎ ((a ≡ 198) × (18 ≤ b) × (b < 20))
    ⊎ ((a ≡ 198) × (b ≡ 51) × (c ≡ 100))
    ⊎ ((a ≡ 203) × (b ≡ 0) × (c ≡ 113))
    ⊎ (224 ≤ a)

abbrev no_options : BlocklistOptions
no_options = record {
  blocked_ranges = none;
  extra_blocked_ranges = none;
  allowed_ranges = none;
  blocked_hostnames = none;
  extra_blocked_hostnames = none;
}

abbrev row : List ℕ → ℕ → Text → Cidr
row bytes prefix source = record { bytes = bytes; prefix = prefix; source = source }

abbrev table : List Cidr
table =
    row (0 ∷ 0 ∷ 0 ∷ 0 ∷ []) 8 (units "0.0.0.0/8")
    ∷ row (10 ∷ 0 ∷ 0 ∷ 0 ∷ []) 8 (units "10.0.0.0/8")
    ∷ row (100 ∷ 64 ∷ 0 ∷ 0 ∷ []) 10 (units "100.64.0.0/10")
    ∷ row (127 ∷ 0 ∷ 0 ∷ 0 ∷ []) 8 (units "127.0.0.0/8")
    ∷ row (169 ∷ 254 ∷ 0 ∷ 0 ∷ []) 16 (units "169.254.0.0/16")
    ∷ row (172 ∷ 16 ∷ 0 ∷ 0 ∷ []) 12 (units "172.16.0.0/12")
    ∷ row (192 ∷ 0 ∷ 0 ∷ 0 ∷ []) 24 (units "192.0.0.0/24")
    ∷ row (192 ∷ 0 ∷ 2 ∷ 0 ∷ []) 24 (units "192.0.2.0/24")
    ∷ row (192 ∷ 168 ∷ 0 ∷ 0 ∷ []) 16 (units "192.168.0.0/16")
    ∷ row (198 ∷ 18 ∷ 0 ∷ 0 ∷ []) 15 (units "198.18.0.0/15")
    ∷ row (198 ∷ 51 ∷ 100 ∷ 0 ∷ []) 24 (units "198.51.100.0/24")
    ∷ row (203 ∷ 0 ∷ 113 ∷ 0 ∷ []) 24 (units "203.0.113.0/24")
    ∷ row (224 ∷ 0 ∷ 0 ∷ 0 ∷ []) 4 (units "224.0.0.0/4")
    ∷ row (240 ∷ 0 ∷ 0 ∷ 0 ∷ []) 4 (units "240.0.0.0/4")
    ∷ []

compile-table : compile default_blocked_ipv4 ≡ some table
unfolding compile default_blocked_ipv4 units parse_cidr
compile-table = refl

IsSpecial-Covers :
    (a b c d : ℕ)
    → IsByte a
    → IsByte b
    → IsByte c
    → IsSpecial a b c
    → Covers table (a ∷ b ∷ c ∷ d ∷ [])
unfolding bits
IsSpecial-Covers a b c d p q r (inl h) = here refl (omega arith)
IsSpecial-Covers a b c d p q r (inr (inl h)) = there (here refl (omega arith))
IsSpecial-Covers a b c d p q r (inr (inr (inl h))) = there (there (here refl (omega arith)))
IsSpecial-Covers a b c d p q r (inr (inr (inr (inl h)))) =
    there (there (there (here refl (omega arith))))
IsSpecial-Covers a b c d p q r (inr (inr (inr (inr (inl h))))) =
    there (there (there (there (here refl (omega arith)))))
IsSpecial-Covers a b c d p q r (inr (inr (inr (inr (inr (inl h)))))) =
    there (there (there (there (there (here refl (omega arith))))))
IsSpecial-Covers a b c d p q r (inr (inr (inr (inr (inr (inr (inl h))))))) =
    there (there (there (there (there (there (here refl (omega arith)))))))
IsSpecial-Covers a b c d p q r (inr (inr (inr (inr (inr (inr (inr (inl h)))))))) =
    there (there (there (there (there (there (there (here refl (omega arith))))))))
IsSpecial-Covers a b c d p q r (inr (inr (inr (inr (inr (inr (inr (inr (inl h))))))))) =
    there (there (there (there (there (there (there (there (here refl (omega arith)))))))))
IsSpecial-Covers a b c d p q r (inr (inr (inr (inr (inr (inr (inr (inr (inr (inl h)))))))))) =
    there (there (there (there (there (there (there (there (there (here refl (omega arith))))))))))
IsSpecial-Covers a b c d p q r (inr (inr (inr (inr (inr (inr (inr (inr (inr (inr (inl h))))))))))) =
    there (
      there
        (there (there (there (there (there (there (there (there (here refl (omega arith)))))))))))
IsSpecial-Covers a b c d p q r
      (inr (inr (inr (inr (inr (inr (inr (inr (inr (inr (inr (inl h)))))))))))) =
    there (
      there (
        there (
          there (there (there (there (there (there (there (there (here refl (omega arith))))))))))))
IsSpecial-Covers a b c d p q r
      (inr (inr (inr (inr (inr (inr (inr (inr (inr (inr (inr (inr (h))))))))))))) =
    elim (Bool-cases (ltb a 240)) [
      | inl e ↦ there (
          there (
            there (
              there (
                there (
                  there
                    (there (there (there (there (there (there (here refl (ground arith)))))))))))))
      | inr e ↦ there (
          there (
            there (
              there (
                there (
                  there (
                    there (
                      there
                        (there (there (there (there (there (here refl (ground arith))))))))))))))
    ]

value_absent : (xs : List ℕ) → some xs ≢ none
value_absent xs h = cc

ranges_absent : (cidrs : List Cidr) → none ≢ some cidrs
ranges_absent cidrs h = cc

nothing_known : (known : List Cidr) → compile [] ≡ some known → known ≡ []
unfolding compile
nothing_known known h = cc

Covers-more :
    (c : Cidr) (more others : List Cidr) (address : List ℕ)
    → (Covers more address → Covers others address)
    → Covers (c ∷ more) address
    → Covers (c ∷ others) address
Covers-more c more others address f (here l a) = here l a
Covers-more c more others address f (there m) = there (f m)

-- `::ffff:a.b.c.d`
abbrev pub mapped : ℕ → ℕ → ℕ → ℕ → List ℕ
mapped a b c d = 0 ∷ 0 ∷ 0 ∷ 0 ∷ 0 ∷ 0 ∷ 0 ∷ 0 ∷ 0 ∷ 0 ∷ 0xff ∷ 0xff ∷ a ∷ b ∷ c ∷ d ∷ []

-- What the first ranges of a list cover, the whole list covers.
compile-Covers :
    (first rest : List Text) (known all : List Cidr) (address : List ℕ)
    → compile first ≡ some known
    → compile (first ++ rest) ≡ some all
    → Covers known address
    → Covers all address
unfolding compile
compile-Covers [] rest known all address h k c =
    elim (subst (λ (x : List Cidr). Covers x address) (nothing_known known h) c) [ ]
compile-Covers (range ∷ first) rest known all address h k c =
    elim (Option-cases (parse_cidr range)) [
      | inl e ↦ absurd (ranges_absent known (rw (e, compile) at h))
      | inr (cidr, e) ↦ elim (Option-cases (compile first)) [
        | inl f ↦ absurd (ranges_absent known (rw (e, f, compile) at h))
        | inr (more, f) ↦ elim (Option-cases (compile (first ++ rest))) [
          | inl g ↦ absurd (ranges_absent all (rw (e, g, compile) at k))
          | inr (others, g) ↦
              let eh : cidr ∷ more ≡ known =
                ap (λ (o : Option (List Cidr)). get_or o []) (rw (e, f, compile) at h) in
              let ek : cidr ∷ others ≡ all =
                ap (λ (o : Option (List Cidr)). get_or o []) (rw (e, g, compile) at k) in
              subst (λ (x : List Cidr). Covers x address) ek
                (Covers-more cidr more others address
                  (compile-Covers first rest more others address f g)
                  (subst (λ (x : List Cidr). Covers x address) (sym eh) c))
        ]
      ]
    ]

default-Covers :
    (options : BlocklistOptions) (cidrs : List Cidr) (address : List ℕ)
    → options.blocked_ranges ≡ none
    → compile (all_blocked options) ≡ some cidrs
    → Covers table address
    → Covers cidrs address
unfolding default_blocked_ipv4 units
default-Covers options cidrs address base h c =
    compile-Covers default_blocked_ipv4
      (default_blocked_ipv6 ++ get_or options.extra_blocked_ranges []) table cidrs address
      compile-table (rw base at h) c

no_ranges :
    (options : BlocklistOptions) (cidrs : List Cidr)
    → options.allowed_ranges ≡ none
    → compile (get_or options.allowed_ranges []) ≡ some cidrs
    → cidrs ≡ []
no_ranges options cidrs none_allowed h = nothing_known cidrs (rw none_allowed at h)

-- Where no range is allowed, only what no blocked range covers is permitted, and no mapped address.
Permitted-blocked :
    (list : Blocklist) (address : List ℕ) (t : Text)
    → list.allowed ≡ []
    → Permitted list address t
    → (unwrap_ipv4_mapped address ≡ none) × ¬ Covers list.blocked address
Permitted-blocked list address t e (by_range c) =
    elim (subst (λ (x : List Cidr). Covers x address) e c) [ ]
Permitted-blocked list address t e (by_embedded {inner} m u c) =
    elim (subst (λ (x : List Cidr). Covers x inner) e c) [ ]
Permitted-blocked list address t e (by_default m u c) = (u, c)

-- With the default ranges and none that is allowed, an IPv4 address of a special range (loopback,
-- private, link-local, shared, documentation, benchmark, multicast, reserved) is refused, under
-- any text, and so is every IPv4 address in its mapped IPv6 form.
pub default_refuses :
    (options : BlocklistOptions) (list : Blocklist) (a b c d : ℕ) (t : Text)
    → create_blocklist options ≡ some list
    → options.blocked_ranges ≡ none
    → options.allowed_ranges ≡ none
    → IsByte a
    → IsByte b
    → IsByte c
    → IsByte d
    → (IsSpecial a b c → validate_address list (a ∷ b ∷ c ∷ d ∷ []) t ≢ permitted)
      × (validate_address list (mapped a b c d) t ≢ permitted)
unfolding unwrap_ipv4_mapped is_ipv4_mapped zeros
default_refuses options list a b c d t made base none_allowed p q r s =
    let w = create_blocklist-WellRanged options list made in
    let (eb, ea) = create_blocklist_lem options list made in
    let e = no_ranges options list.allowed none_allowed ea in
    let four = a ∷ b ∷ c ∷ d ∷ [] in
    let six = mapped a b c d in
    let zero_byte : IsByte 0 = omega arith in
    let ones : IsByte 255 = omega arith in
    (
      λ special h.
          (Permitted-blocked list four t e
              ((validate_address_iff list four t w (p, (q, (r, (s, tt))))).0 h)).1
            (default-Covers options list.blocked four base eb
              (IsSpecial-Covers a b c d p q r special)),
      λ h. absurd (
          value_absent four
            (Permitted-blocked list six t e
              ((validate_address_iff list six t w (omega arith)).0 h)).0),
    )
