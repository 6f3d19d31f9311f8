-- ===== src/Examples/Machine.antt =====
-- A machine for the examples: the list of its iptables rules, and a binary that adds and deletes
-- them, and that refuses to add what a test names.
use xk6_disruptor.Prelude.{
  ℕ, ◌+◌, ◌<◌, ◌≡◌, refl, inl, inr, Bool, true, ◌&&◌, Option, none, some, List, [], ◌∷◌, arith,
  Text, codes, text_eq, words_eq, words_eq_iff, Error, message, is_some, ltb, if◌then◌else◌, ltb→lt,
  lt→ltb, Bool-cases, count_if,
}
use xk6_disruptor.Iptables.{Executor}
use xk6_disruptor.Iptables.Netfilter.{Netfilter, DeletesPresent, one_if}

abbrev pub Machine : Type 0
Machine = List (List Text)

unfoldable pub copies : Machine → List Text → ℕ
copies w key = count_if (words_eq key) w

abbrev pub erase : List Text → Machine → Machine
erase key [] = []
erase key (x ∷ w) = let rest = erase key w in if words_eq key x then w else x ∷ rest

abbrev pub refusal : Option Error
refusal = some (message "exit status 1")

unfoldable pub run : (List Text → Bool) → Machine → List Text → Option Error × Machine
unfolding text_eq words_eq copies
run refused w (t ∷ table ∷ flag ∷ chain ∷ rest) =
    let key = table ∷ chain ∷ rest in
    if text_eq flag (codes "-A")
    then (if refused key then (refusal, w) else (none, key ∷ w))
    else if text_eq flag (codes "-D") && ltb 0 (copies w key)
    then (none, erase key w)
    else (refusal, w)
run refused w _ = (refusal, w)

unfoldable pub machine : (List Text → Bool) → Executor Machine
unfolding run
machine refused w program args = run refused w args

copies-erase :
    (key k : List Text) (w : Machine)
    → 0 < copies w key
    → copies (erase key w) k + one_if k key ≡ copies w k
unfolding copies
copies-erase key k [] h = elim h [ ]
copies-erase key k (x ∷ w) h = elim (Bool-cases (words_eq key x)) [
  | inl same ↦ rw (same, (words_eq_iff key x).0 same) (ground arith)
  | inr other ↦ rw other (ground (arith, copies-erase key k w (rw other at h)))
]

refusal_keeps :
    (refused : List Text → Bool) (w : Machine) (args k : List Text)
    → is_some (run refused w args).0 ≡ true
    → copies (run refused w args).1 k ≡ copies w k
unfolding run
refusal_keeps refused w [] k h = refl
refusal_keeps refused w (a ∷ []) k h = refl
refusal_keeps refused w (a ∷ b ∷ []) k h = refl
refusal_keeps refused w (a ∷ b ∷ c ∷ []) k h = refl
refusal_keeps refused w (t ∷ table ∷ flag ∷ chain ∷ rest) k h = ground arith

pub machine-Netfilter : (refused : List Text → Bool) → Netfilter (machine refused) copies
unfolding machine copies
machine-Netfilter refused = record {
  appends = λ w table chain rest k. elim (Bool-cases (refused (table ∷ chain ∷ rest))) [
    | inl bad ↦ rw bad (λ h. absurd cc)
    | inr good ↦ rw good (λ h. ground arith)
  ];
  deletes = λ w table chain rest k. elim (Bool-cases (ltb 0 (copies w (table ∷ chain ∷ rest)))) [
    | inl there ↦ rw there (λ h. copies-erase (table ∷ chain ∷ rest) k w (ltb→lt 0 _ there))
    | inr absent ↦ rw absent (λ h. absurd cc)
  ];
  refusal_changes_nothing = λ w args k. refusal_keeps refused w args k;
}

pub machine-DeletesPresent : (refused : List Text → Bool) → DeletesPresent (machine refused) copies
unfolding machine
machine-DeletesPresent refused w table chain rest h = rw (lt→ltb 0 _ h) refl
