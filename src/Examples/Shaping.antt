-- ===== src/Examples/Shaping.antt =====
-- The shaper at work on a machine with a binary tc, of which the state is the discipline of each
-- interface.
use xk6_disruptor.Prelude.{
  ℕ, ◌≡◌, refl, Option, none, some, List, [], ◌∷◌, ◌++◌, Text, codes, text_eq, text_eq_refl, show_ℕ,
  message, is_some, ltb, leb, if◌then◌else◌, drop, pos,
}
use xk6_disruptor.Prelude.Floats.{Floats}
use xk6_disruptor.Iptables.{Executor}
use xk6_disruptor.Network.Shaping.{ShapingConfig, apply, TrafficControl, shaping_ends}

abbrev Interfaces : Type 0
Interfaces = Text → Option (List Text)

unfoldable tc : Executor Interfaces
unfolding text_eq
tc w program (object ∷ verb ∷ dev ∷ interface ∷ root ∷ rest) =
    if text_eq verb (codes "replace")
    then (none, λ j. if text_eq j interface then some (drop 1 rest) else w j)
    else (none, λ j. if text_eq j interface then none else w j)
tc w program _ = (some (message "exit status 1"), w)

tc-TrafficControl : TrafficControl tc (λ w j. w j)
unfolding tc
tc-TrafficControl = record {
  replaces = λ w interface args h. rw (text_eq_refl interface) refl;
  replaces_no_other = λ w interface j args other. rw other refl;
  refusal_changes_nothing = λ w interface j args h. absurd cc;
  deletes = λ w interface h. rw (text_eq_refl interface) refl;
  deletes_no_other = λ w interface j other. rw other refl;
}

abbrev percent_floats : Floats ℕ
percent_floats = record { less = ltb; at_most = leb; zero_f = 0; one_f = 100 }

abbrev lossy : ShapingConfig ℕ
lossy = record {
  interface_name = codes "eth0";
  delay = pos 100000000;
  jitter = pos 0;
  loss = 10;
  corrupt = 0;
  duplicate = 0;
  rate = [];
}

abbrev percent : ℕ → Text
percent x = show_ℕ x ++ codes ".0000%"

abbrev quiet : Interfaces
quiet j = none

shaping_ends_example : (apply tc percent_floats percent quiet lossy).1 (codes "eth1") ≡ (
    if is_some (apply tc percent_floats percent quiet lossy).0
    then quiet (codes "eth1")
    else if text_eq (codes "eth1") (codes "eth0")
    then none
    else quiet (codes "eth1"))
shaping_ends_example =
    shaping_ends tc-TrafficControl percent_floats percent quiet lossy (codes "eth1")
