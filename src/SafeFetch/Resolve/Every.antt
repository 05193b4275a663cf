-- ===== src/SafeFetch/Resolve/Every.antt =====
-- All records of a name, and `resolveAndValidate` (packages/automa-safe-fetch/src/resolve.ts).
use automa_build.Prelude.{
  ℕ, ◌≡◌, ◌≢◌, ◌⊎◌, inl, inr, refl, subst, sym, ap, true, ◌&&◌, Option, none, some, List, [], ◌∷◌,
  ◌++◌, arith, Text, All, Option-cases, Bool-cases, has_text, text_eq, text_eq→≡, get_or,
}
use automa_build.SafeFetch.Ip.{IsByte, parse_ip}
use automa_build.SafeFetch.Ip.Bytes.{parse_ip-IsByte}
use automa_build.SafeFetch.Ip.Show.{ip_to_string}
use automa_build.SafeFetch.Errors.{SsrfBlockedError, Checked, passed, blocked}
use automa_build.SafeFetch.Blocklist.{Blocklist, validate_address}
use automa_build.SafeFetch.Blocklist.Permitted.{
  Permitted, WellRanged, validate_address_iff, AddressVerdict-cases,
}
use automa_build.SafeFetch.Resolve.{
  Answer, ResolvedAddress, Context, resolve_family, collect, first_refused, resolve_and_validate,
}

-- an address that may be dialled, under its own text
abbrev pub MayDial : Blocklist → ResolvedAddress → Type 0
MayDial list a =
    All IsByte a.bytes × (a.text ≡ ip_to_string a.bytes) × Permitted list a.bytes a.text

-- an address under its own text
abbrev Read : ResolvedAddress → Type 0
Read a = All IsByte a.bytes × (a.text ≡ ip_to_string a.bytes)

abbrev address_of : List ℕ → ResolvedAddress
address_of bytes = record { text = ip_to_string bytes; bytes = bytes }

collect-Read :
    (seen texts : List Text) (out : List ResolvedAddress)
    → collect seen texts ≡ some out
    → All Read out
unfolding collect
collect-Read seen [] out h =
    let e : [] ≡ out = cc in subst (λ (x : List ResolvedAddress). All Read x) e tt
collect-Read seen (text ∷ more) out h = elim (Bool-cases (has_text seen text)) [
  | inl old ↦ collect-Read seen more out (rw (old, collect) at h)
  | inr new ↦ elim (Option-cases (parse_ip text)) [
    | inl e ↦ ground arith
    | inr (bytes, e) ↦ elim (Option-cases (collect (text ∷ seen) more)) [
      | inl f ↦ ground arith
      | inr (rest, f) ↦
          let g : address_of bytes ∷ rest ≡ out = ground arith in
          subst (λ (x : List ResolvedAddress). All Read x) g
            (((parse_ip-IsByte text bytes e).0, refl), collect-Read (text ∷ seen) more rest f)
    ]
  ]
]

no_address : (out : List ResolvedAddress) → none ≢ some out
no_address out h = cc

some_error : (e : SsrfBlockedError) → some e ≢ none
some_error e h = cc

-- Each text that was not seen before is read, and what holds of all that is collected holds of it.
collect-every :
    (P : ResolvedAddress → Type 0) (seen texts : List Text) (out : List ResolvedAddress)
    (text : Text)
    → collect seen texts ≡ some out
    → All P out
    → has_text texts text ≡ true
    → (has_text seen text ≡ true)
      ⊎ ((bytes : List ℕ) × (parse_ip text ≡ some bytes) × P (address_of bytes))
unfolding collect
collect-every P seen [] out text h all m = cc
collect-every P seen (first ∷ more) out text h all m = elim (Bool-cases (has_text seen first)) [
  | inl old ↦ elim (Bool-cases (text_eq first text)) [
    | inl same ↦ inl (subst (λ (t : Text). has_text seen t ≡ true) (text_eq→≡ first text same) old)
    | inr other ↦ collect-every P seen more out text (rw (old, collect) at h) all (rw other at m)
  ]
  | inr new ↦ elim (Option-cases (parse_ip first)) [
    | inl e ↦ absurd (no_address out (rw (new, e, collect) at h))
    | inr (bytes, e) ↦ elim (Option-cases (collect (first ∷ seen) more)) [
      | inl f ↦ absurd (no_address out (rw (new, e, f, collect) at h))
      | inr (rest, f) ↦
          let g : address_of bytes ∷ rest ≡ out =
            ap (λ (o : Option (List ResolvedAddress)). get_or o [])
              (rw (new, e, f, collect) at h) in
          let held : All P (address_of bytes ∷ rest) =
            subst (λ (x : List ResolvedAddress). All P x) (sym g) all in
          elim (Bool-cases (text_eq first text)) [
            | inl same ↦ inr (
              bytes,
              subst (λ (t : Text). parse_ip t ≡ some bytes) (text_eq→≡ first text same) e,
              held.0,
            )
            | inr other ↦
                elim (collect-every P (first ∷ seen) more rest text f held.1 (rw other at m)) [
                  | inl s ↦ inl (rw other at s)
                  | inr found ↦ inr found
                ]
          ]
    ]
  ]
]

first_refused-Permitted :
    (list : Blocklist) (context : Context) (hostname : Text) (found : List ResolvedAddress)
    → WellRanged list
    → All Read found
    → first_refused list context hostname found ≡ none
    → All (MayDial list) found
unfolding first_refused
first_refused-Permitted list context hostname [] w r h = tt
first_refused-Permitted list context hostname (a ∷ more) w r h =
    elim (AddressVerdict-cases (validate_address list a.bytes a.text)) [
      | inl e ↦ (
        (r.0.0, r.0.1, (validate_address_iff list a.bytes a.text w r.0.0).0 e),
        first_refused-Permitted list context hostname more w r.1 (rw (e, first_refused) at h),
      )
      | inr (reason, range, e) ↦ absurd (some_error _ (rw (e, first_refused) at h))
    ]

blocked_not_passed :
    (e : SsrfBlockedError) (found : List ResolvedAddress) → blocked e ≢ passed found
blocked_not_passed e found h = cc

cons_nil : (a : ResolvedAddress) (more : List ResolvedAddress) → a ∷ more ≢ []
cons_nil a more h = cc

abbrev pub value_of : Checked (List ResolvedAddress) → List ResolvedAddress
value_of (passed found) = found
value_of (blocked e) = []

-- what is known of the records of a name that was let through
abbrev pub EveryRecord : Blocklist → List Text → List ResolvedAddress → Type 0
EveryRecord list texts found =
    (found ≢ [])
    × All (MayDial list) found
    × ((text : Text)
        → has_text texts text ≡ true
        → (bytes : List ℕ) × (parse_ip text ≡ some bytes) × MayDial list (address_of bytes))

-- Under a list whose ranges are made of bytes, where `resolveAndValidate` lets a name through, it
-- returns an address, each that it returns may be dialled, and so may be every address in the
-- answers of both families: a single bad record refuses the name.
pub resolve_and_validate-EveryRecord :
    (list : Blocklist) (context : Context) (hostname : Text) (answer4 answer6 : Answer)
    (found : List ResolvedAddress)
    → WellRanged list
    → resolve_and_validate list context hostname answer4 answer6 ≡ passed found
    → EveryRecord list
        ((resolve_family answer4).addresses ++ (resolve_family answer6).addresses)
        found
unfolding resolve_and_validate
resolve_and_validate-EveryRecord list context hostname answer4 answer6 found w h =
    let texts = (resolve_family answer4).addresses ++ (resolve_family answer6).addresses in
    elim (Bool-cases ((resolve_family answer4).is_error && (resolve_family answer6).is_error)) [
      | inl broken ↦ absurd (blocked_not_passed _ found (rw (broken, resolve_and_validate) at h))
      | inr fine ↦ elim (Option-cases (collect [] texts)) [
        | inl e ↦ absurd (blocked_not_passed _ found (rw (fine, e, resolve_and_validate) at h))
        | inr ([], e) ↦
            absurd (blocked_not_passed _ found (rw (fine, e, resolve_and_validate) at h))
        | inr (first ∷ more, e) ↦
            elim (Option-cases (first_refused list context hostname (first ∷ more))) [
              | inr (error, f) ↦
                  absurd (blocked_not_passed _ found (rw (fine, e, f, resolve_and_validate) at h))
              | inl f ↦
                  let read = collect-Read [] texts (first ∷ more) e in
                  let dial =
                    first_refused-Permitted list context hostname (first ∷ more) w read f in
                  let g : first ∷ more ≡ found =
                    ap value_of (rw (fine, e, f, resolve_and_validate) at h) in
                  subst (λ (x : List ResolvedAddress). EveryRecord list texts x) g
                    (
                      (λ n. cons_nil first more n),
                      dial,
                      λ text m.
                          elim (collect-every (MayDial list) [] texts (first ∷ more) text e dial
                            m) [ inl s ↦ cc | inr r ↦ r ],
                    )
            ]
      ]
    ]
