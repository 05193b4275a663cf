-- ===== src/SafeFetch/Blocklist/Compiled.antt =====
-- The ranges of a list that `createBlocklist` makes (packages/automa-safe-fetch/src/blocklist.ts).
use automa_build.Prelude.{
  ℕ, ◌≡◌, inl, inr, subst, ap, ◌∙◌, some, List, [], ◌∷◌, ◌++◌, arith, Text, All, Option-cases,
  get_or, cut_last,
}
use automa_build.SafeFetch.Ip.{IsByte, parse_ip}
use automa_build.SafeFetch.Ip.Bytes.{parse_ip-IsByte}
use automa_build.SafeFetch.Cidr.{Cidr, parse_cidr}
use automa_build.SafeFetch.Blocklist.{
  Blocklist, BlocklistOptions, create_blocklist, compile, default_blocked_ipv4,
  default_blocked_ipv6,
}
use automa_build.SafeFetch.Blocklist.Permitted.{Ranged, WellRanged}

parse_cidr-IsByte : (input : Text) (c : Cidr) → parse_cidr input ≡ some c → All IsByte c.bytes
unfolding parse_cidr
parse_cidr-IsByte input c h = elim (Option-cases (cut_last b'/' input)) [
  | inl e ↦ elim (Option-cases (parse_ip input)) [
    | inl f ↦ ground arith
    | inr (bytes, f) ↦
        let g : bytes ≡ c.bytes = ground arith in
        subst (λ (x : List ℕ). All IsByte x) g (parse_ip-IsByte input bytes f).0
  ]
  | inr ((before, after), e) ↦ elim (Option-cases (parse_ip before)) [
    | inl f ↦ ground arith
    | inr (bytes, f) ↦
        let g : bytes ≡ c.bytes = ground arith in
        subst (λ (x : List ℕ). All IsByte x) g (parse_ip-IsByte before bytes f).0
  ]
]

compile-Ranged :
    (ranges : List Text) (cidrs : List Cidr) → compile ranges ≡ some cidrs → Ranged cidrs
unfolding compile
compile-Ranged [] cidrs h = let e : [] ≡ cidrs = cc in subst (λ (x : List Cidr). Ranged x) e tt
compile-Ranged (range ∷ ranges) cidrs h = elim (Option-cases (parse_cidr range)) [
  | inl e ↦ ground arith
  | inr (c, e) ↦ elim (Option-cases (compile ranges)) [
    | inl f ↦ ground arith
    | inr (more, f) ↦
        let g : c ∷ more ≡ cidrs = ground arith in
        subst (λ (x : List Cidr). Ranged x) g
          (parse_cidr-IsByte range c e, compile-Ranged ranges more f)
  ]
]

-- the ranges that are compiled for the block list
abbrev pub all_blocked : BlocklistOptions → List Text
all_blocked options =
    get_or options.blocked_ranges (default_blocked_ipv4 ++ default_blocked_ipv6)
    ++ get_or options.extra_blocked_ranges []

pub create_blocklist_lem :
    (options : BlocklistOptions) (list : Blocklist)
    → create_blocklist options ≡ some list
    → (compile (all_blocked options) ≡ some list.blocked)
      × (compile (get_or options.allowed_ranges []) ≡ some list.allowed)
unfolding create_blocklist
create_blocklist_lem options list h = elim (Option-cases (compile (all_blocked options))) [
  | inl e ↦ ground arith
  | inr (blocked, e) ↦ elim (Option-cases (compile (get_or options.allowed_ranges []))) [
    | inl f ↦ ground arith
    | inr (allowed, f) ↦
        let g : blocked ≡ list.blocked = ground arith in
        let g' : allowed ≡ list.allowed = ground arith in (e ∙ ap some g, f ∙ ap some g')
  ]
]

pub create_blocklist-WellRanged :
    (options : BlocklistOptions) (list : Blocklist)
    → create_blocklist options ≡ some list
    → WellRanged list
create_blocklist-WellRanged options list h =
    let (b, a) = create_blocklist_lem options list h in
    (
      compile-Ranged (all_blocked options) list.blocked b,
      compile-Ranged (get_or options.allowed_ranges []) list.allowed a,
    )
