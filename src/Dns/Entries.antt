-- ===== src/Dns/Entries.antt =====
-- cmd/agent/commands/dns.go: which address the entries give to a domain.
use xk6_disruptor.Prelude.{
  ◌≡◌, refl, sym, ap, ◌∙◌, ◌⊎◌, inl, inr, Bool, true, false, not, ◌&&◌, ◌||◌, Option, none, some,
  List, [], ◌∷◌, ◌++◌, ℕ, suc, ◌-◌, ◌==◌, length, take, drop, codes, arith, Text, text_eq,
  text_eq_iff, is_empty, cut, ok, err, if◌then◌else◌, Bool-cases,
}
use xk6_disruptor.Dns.Proxy.{lookup}
use xk6_disruptor.Dns.Spoof.{
  assign, ends_with_dot, qualified, bad_entry, add_entry, parse_entries, parse_spoof_entries,
}

lookup-assign :
    (d key value : Text) (m : List (Text × Text))
    → lookup d (assign key value m) ≡ (if text_eq key d then some value else lookup d m)
unfolding lookup assign
lookup-assign d key value [] = refl
lookup-assign d key value ((k, v) ∷ m) =
    ground
      (arith, text_eq_iff key d, text_eq_iff k key, text_eq_iff k d, lookup-assign d key value m)

-- The characters before the first equals sign, and the entry in its two halves, if there is one.
abbrev pub before_equals : Text → ℕ
before_equals [] = 0
before_equals (c ∷ s) = if c == 61 then 0 else suc (before_equals s)

abbrev pub halves : Text → Option (Text × Text)
halves s =
    if before_equals s == length s
    then none
    else some (take (before_equals s) s, drop (suc (before_equals s)) s)

cut-halves : (s : Text) → cut b'=' s ≡ halves s
unfolding cut
cut-halves [] = refl
cut-halves (c ∷ s) = elim (Bool-cases (c == 61)) [
  | inl equals ↦ rw (cut, equals) (ground arith)
  | inr other ↦ elim (Bool-cases (before_equals s == length s)) [
    | inl all ↦
        let e : (suc (before_equals s) == suc (length s)) ≡ true = ground (arith, all) in
        rw (cut, other, cut-halves s, all, e) refl
    | inr some_left ↦
        let e : (suc (before_equals s) == suc (length s)) ≡ false = ground (arith, some_left) in
        rw (cut, other, cut-halves s, some_left, e) refl
  ]
]

-- The domain with a dot at its end: one is added where the last character is none.
abbrev pub dotted : Text → Text
dotted s = if text_eq (drop (length s - 1) s) (codes ".") then s else s ++ codes "."

ends-last : (s : Text) → ends_with_dot s ≡ text_eq (drop (length s - 1) s) (codes ".")
unfolding text_eq
ends-last [] = refl
ends-last (c ∷ []) = ground arith
ends-last (c ∷ (d ∷ s)) =
    let e : suc (suc (length s)) - 1 ≡ suc (length s) = omega arith in
    let f : suc (length s) - 1 ≡ length s = omega arith in
    let rest : ends_with_dot (d ∷ s) ≡ text_eq (drop (length s) (d ∷ s)) (codes ".") =
      ends-last (d ∷ s) ∙ ap (λ n. text_eq (drop n (d ∷ s)) (codes ".")) f in
    rest ∙ ap (λ n. text_eq (drop n (c ∷ (d ∷ s))) (codes ".")) (sym e)

qualified-dotted : (s : Text) → qualified s ≡ dotted s
qualified-dotted s = rw (ends-last s) refl

-- An entry has an equals sign, and something on both sides of it.
abbrev pub is_entry : Option (Text × Text) → Bool
is_entry none = false
is_entry (some (domain, ip)) = not (is_empty domain) && not (is_empty ip)

-- The address that an entry gives to a domain, and the one that the last such entry gives.
abbrev pub address_in : Text → Option (Text × Text) → Option Text
address_in d none = none
address_in d (some (domain, ip)) = if text_eq (dotted domain) d then some ip else none

abbrev pub or_else {ℓ} : {A : Type ℓ} → Option A → Option A → Option A
or_else none other = other
or_else (some x) other = some x

abbrev pub last_address : Text → List Text → Option Text
last_address d [] = none
last_address d (entry ∷ entries) = or_else (last_address d entries) (address_in d (halves entry))

abbrev pub all_entries : List Text → Bool
all_entries [] = true
all_entries (entry ∷ entries) = is_entry (halves entry) && all_entries entries

add_entry_cases :
    (m : List (Text × Text)) (e : Option (Text × Text))
    → ((is_entry e ≡ false) × (add_entry m e ≡ err bad_entry))
      ⊎ ((n : List (Text × Text)) × (is_entry e ≡ true)
          × (add_entry m e ≡ ok n)
          × ((d : Text) → lookup d n ≡ or_else (address_in d e) (lookup d m)))
unfolding add_entry
add_entry_cases m none = inl (refl, refl)
add_entry_cases m (some (domain, ip)) = elim (Bool-cases (is_empty domain || is_empty ip)) [
  | inl bad ↦ inl (ground arith, rw bad refl)
  | inr good ↦ inr (
    assign (dotted domain) ip m,
    ground arith,
    rw (good, qualified-dotted domain) refl,
    λ d. lookup-assign d (dotted domain) ip m ∙ (ground arith),
  )
]

parse_entries_lem :
    (m : List (Text × Text)) (entries : List Text)
    → ((all_entries entries ≡ false) × (parse_entries m entries ≡ err bad_entry))
      ⊎ ((n : List (Text × Text)) × (all_entries entries ≡ true)
          × (parse_entries m entries ≡ ok n)
          × ((d : Text) → lookup d n ≡ or_else (last_address d entries) (lookup d m)))
unfolding parse_entries
parse_entries_lem m [] = inr (m, refl, refl, λ d. refl)
parse_entries_lem m (entry ∷ entries) = elim (add_entry_cases m (halves entry)) [
  | inl (bad, e) ↦ inl (ground (arith, bad), rw (parse_entries, cut-halves entry, e) refl)
  | inr (more, good, e, reads) ↦ elim (parse_entries_lem more entries) [
    | inl (bad, f) ↦ inl (ground (arith, good, bad), rw (parse_entries, cut-halves entry, e) f)
    | inr (n, rest, f, reads') ↦ inr (
      n,
      ground (arith, good, rest),
      rw (parse_entries, cut-halves entry, e) f,
      λ d.
          reads' d
          ∙ ap (or_else (last_address d entries)) (reads d)
          ∙ or_else_assoc (last_address d entries) (address_in d (halves entry)) (lookup d m),
    )
  ]
]
  where
    or_else_assoc : (a b c : Option Text) → or_else a (or_else b c) ≡ or_else (or_else a b) c
    or_else_assoc none b c = refl
    or_else_assoc (some x) b c = refl

-- The spoof entries are refused if one of them has no equals sign or nothing on one side of its
-- first one, and else give a map in which a domain has the address of the last entry for it, where
-- an entry is for the text before its first equals sign, with a dot added at its end if it has none
-- there.
pub spoof_entries_exact :
    (entries : List Text)
    → ((all_entries entries ≡ false) × (parse_spoof_entries entries ≡ err bad_entry))
      ⊎ ((m : List (Text × Text)) × (all_entries entries ≡ true)
          × (parse_spoof_entries entries ≡ ok m)
          × ((d : Text) → lookup d m ≡ last_address d entries))
unfolding parse_spoof_entries lookup
spoof_entries_exact entries = elim (parse_entries_lem [] entries) [
  | inl bad ↦ inl bad
  | inr (m, good, e, reads) ↦ inr (m, good, e, λ d. reads d ∙ or_none (last_address d entries))
]
  where
    or_none : (a : Option Text) → or_else a none ≡ a
    or_none none = refl
    or_none (some x) = refl
