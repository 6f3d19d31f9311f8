-- ===== src/Iptables/Netfilter.antt =====
-- What the code relies on of the iptables binary, as hypotheses: -A adds one copy of a rule, -D
-- deletes one, a command that fails changes nothing, and the deletion of a rule that is there is
-- not refused. `copies` counts the copies of a rule, named by its words.
use xk6_disruptor.Prelude.{
  ℕ, ◌+◌, ◌<◌, ◌≡◌, true, false, none, List, ◌∷◌, arith, Text, codes, words_eq, split, is_some,
  if◌then◌else◌,
}
use xk6_disruptor.Iptables
use xk6_disruptor.Iptables.{Executor}
use xk6_disruptor.Iptables.Rule.{Rule, IsWellFormed, words, split-add, split-remove}

abbrev pub one_if : List Text → List Text → ℕ
one_if k ws = if words_eq k ws then 1 else 0

abbrev pub command : Text → Text → Text → List Text → List Text
command table flag chain rest = codes "-t" ∷ table ∷ flag ∷ chain ∷ rest

pub record Netfilter {W : Type 0} (executor : Executor W) (copies : W → List Text → ℕ)
    : Type 0 where
  pub appends :
      (w : W) (table chain : Text) (rest k : List Text)
      → let (e, w') = executor w (codes "iptables") (command table (codes "-A") chain rest) in
        is_some e ≡ false → copies w' k ≡ copies w k + one_if k (table ∷ chain ∷ rest)
  pub deletes :
      (w : W) (table chain : Text) (rest k : List Text)
      → let (e, w') = executor w (codes "iptables") (command table (codes "-D") chain rest) in
        is_some e ≡ false → copies w' k + one_if k (table ∷ chain ∷ rest) ≡ copies w k
  pub refusal_changes_nothing :
      (w : W) (args k : List Text)
      → let (e, w') = executor w (codes "iptables") args in
        is_some e ≡ true → copies w' k ≡ copies w k

module _ {W : Type 0} {executor : Executor W} {copies : W → List Text → ℕ}
    (net : Netfilter executor copies) where
  pub copies-add :
      (w : W) (r : Rule)
      → IsWellFormed r
      → (k : List Text)
      → let (e, w') = Iptables.add executor w r in
        copies w' k ≡ copies w k + (if is_some e then 0 else one_if k (words r))
  unfolding Iptables.add words
  copies-add w r v k = rw (split-add r v) (
      ground (
        arith,
        net.appends w r.table r.chain (split b' ' r.args) k,
        net.refusal_changes_nothing w (command r.table (codes "-A") r.chain (split b' ' r.args)) k,
      ))

  pub copies-remove :
      (w : W) (r : Rule)
      → IsWellFormed r
      → (k : List Text)
      → let (e, w') = Iptables.remove executor w r in
        copies w' k + (if is_some e then 0 else one_if k (words r)) ≡ copies w k
  unfolding Iptables.remove words
  copies-remove w r v k = rw (split-remove r v) (
      ground (
        arith,
        net.deletes w r.table r.chain (split b' ' r.args) k,
        net.refusal_changes_nothing w (command r.table (codes "-D") r.chain (split b' ' r.args)) k,
      ))

-- The binary deletes a rule that is there.
abbrev pub DeletesPresent : {W : Type 0} → Executor W → (W → List Text → ℕ) → Type 0
DeletesPresent {W} executor copies =
    (w : W) (table chain : Text) (rest : List Text)
    → 0 < copies w (table ∷ chain ∷ rest)
    → (executor w (codes "iptables") (command table (codes "-D") chain rest)).0 ≡ none

pub remove_accepted :
    {W : Type 0} (executor : Executor W) (copies : W → List Text → ℕ)
    → DeletesPresent executor copies
    → (w : W) (r : Rule) → IsWellFormed r
    → 0 < copies w (words r)
    → (Iptables.remove executor w r).0 ≡ none
unfolding Iptables.remove words
remove_accepted executor copies d w r v h =
    rw (split-remove r v, d w r.table r.chain (split b' ' r.args) h)
