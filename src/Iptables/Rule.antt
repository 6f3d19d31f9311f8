-- ===== src/Iptables/Rule.antt =====
-- pkg/iptables/iptables.go: a rule, and the command lines that add and remove it.
use xk6_disruptor.Prelude.{
  ◌≡◌, ap, ◌∙◌, List, ◌∷◌, ◌++◌, arith, Text, codes, IsFree, split, split_word,
}

pub record Rule : Type 0 where
  pub table : Text
  pub chain : Text
  pub args : Text

-- The arguments of the binary for a command, `-A` or `-D`, on a rule.
unfoldable pub line : Text → Rule → Text
line command r =
    codes "-t "
    ++ (r.table ++ (codes " -" ++ (command ++ (codes " " ++ (r.chain ++ (codes " " ++ r.args))))))

unfoldable pub add : Rule → Text
unfolding line
add r = line (codes "A") r

unfoldable pub remove : Rule → Text
unfolding line
remove r = line (codes "D") r

-- What netfilter is told of a rule: its table, its chain and the words of its arguments.
unfoldable pub words : Rule → List Text
words r = r.table ∷ r.chain ∷ split b' ' r.args

-- No blank in the names of the table and of the chain.
pub record IsWellFormed (r : Rule) : Type 0 where
  pub table_free : IsFree b' ' r.table
  pub chain_free : IsFree b' ' r.chain

split-line :
    (command : Text) (r : Rule)
    → IsFree b' ' command
    → IsWellFormed r
    → split b' ' (line command r)
      ≡ codes "-t" ∷ r.table ∷ (b'-' ∷ command) ∷ r.chain ∷ split b' ' r.args
unfolding line
split-line command r c v =
    split_word b' ' (codes "-t") _ (omega arith)
    ∙ ap (λ ws. codes "-t" ∷ ws)
        (split_word b' ' r.table _ v.table_free
          ∙ ap (λ ws. r.table ∷ ws)
              (split_word b' ' (b'-' ∷ command) _ (omega arith, c)
                ∙ ap (λ ws. (b'-' ∷ command) ∷ ws) (split_word b' ' r.chain r.args v.chain_free)))

pub split-add :
    (r : Rule)
    → IsWellFormed r
    → split b' ' (add r) ≡ codes "-t" ∷ r.table ∷ codes "-A" ∷ r.chain ∷ split b' ' r.args
unfolding add
split-add r v = split-line (codes "A") r (omega arith) v

pub split-remove :
    (r : Rule)
    → IsWellFormed r
    → split b' ' (remove r) ≡ codes "-t" ∷ r.table ∷ codes "-D" ∷ r.chain ∷ split b' ' r.args
unfolding remove
split-remove r v = split-line (codes "D") r (omega arith) v
