-- ===== src/Iptables.antt =====
-- pkg/iptables/iptables.go: the command that runs the iptables binary. The executor, which starts
-- the process, is a parameter: it takes the state of the machine and the command line, and gives
-- the error, if any, with the new state. The output of the binary goes to an error's text only.
pub mod Rule
pub mod RuleSet
pub mod Netfilter
pub mod Tracking
pub mod Scoped
use xk6_disruptor.Prelude.{Text, codes, List, Option, Error, wrap_err, split}

-- runtime.Executor: the method Exec, with the state of the machine passed along.
abbrev pub Executor : Type 0 → Type 0
Executor W = W → Text → List Text → Option Error × W

module _ {W : Type 0} (executor : Executor W) where
  unfoldable pub exec : W → Text → Option Error × W
  exec w args =
      let (e, w') = executor w (codes "iptables") (split b' ' args) in (wrap_err "%w: %q" e, w')

  unfoldable pub add : W → Rule.Rule → Option Error × W
  unfolding exec Rule.add
  add w r = exec w (Rule.add r)

  unfoldable pub remove : W → Rule.Rule → Option Error × W
  unfolding exec Rule.remove
  remove w r = exec w (Rule.remove r)
