-- ===== src/Network/Shaping.antt =====
-- pkg/agent/network/shaping.go: the shaper, which puts a netem queueing discipline on an interface. The
-- executor that runs tc is a parameter, and so is what %.4f%% prints of a fraction.
use Prim.Native.String.{String}
use xk6_disruptor.Prelude.{
  ◌/◌, ◌≡◌, refl, ap, ◌∙◌, inl, inr, Bool, true, false, not, ◌||◌, Option, none, some, List, [],
  ◌∷◌, ◌++◌, arith, Text, codes, text_eq, text_eq_iff, is_empty, show_ℕ, Error, message, wrap_err,
  is_some, Result, ok, ◌>>◌, fail_if, ◌==◌, if◌then◌else◌, Bool-cases, length, ℤ, pos, pos_part,
  ltb_ℤ,
}
use xk6_disruptor.Prelude.Floats.{Floats}
use xk6_disruptor.Iptables.{Executor}

pub record ShapingConfig (F : Type 0) : Type 0 where
  pub interface_name : Text
  pub delay : ℤ
  pub jitter : ℤ
  pub loss : F
  pub corrupt : F
  pub duplicate : F
  pub rate : Text

abbrev pub nothing_to_shape : Error
nothing_to_shape = message "at least one shaping parameter must be specified"

-- fmt.Sprintf("%dms", d.Milliseconds()) at a positive duration, which is all that is printed.
abbrev pub milliseconds : ℤ → Text
milliseconds d = show_ℕ (pos_part d / 1000000) ++ codes "ms"

abbrev pub is_positive : ℤ → Bool
is_positive v = ltb_ℤ (pos 0) v

-- The command lines, after the name tc.
abbrev pub replace_words : Text → List Text → List Text
replace_words interface args =
    codes "qdisc" ∷ codes "replace" ∷ codes "dev" ∷ interface ∷ codes "root" ∷ codes "netem" ∷ args

abbrev pub delete_words : Text → List Text
delete_words interface = codes "qdisc" ∷ codes "del" ∷ codes "dev" ∷ interface ∷ codes "root" ∷ []

module _ {F : Type 0} (floats : Floats F) (percent : F → Text) where
  open floats use {less, zero_f, one_f}

  abbrev out_of_range : F → Bool
  out_of_range x = less x zero_f || less one_f x

  unfoldable pub new_shaper : ShapingConfig F → Result (ShapingConfig F)
  new_shaper config = do
    let interface = if is_empty config.interface_name then codes "eth0" else config.interface_name
    fail_if (out_of_range config.loss) (message "loss must be in the range [0.0, 1.0]")
    fail_if (out_of_range config.corrupt) (message "corrupt must be in the range [0.0, 1.0]")
    fail_if (out_of_range config.duplicate) (message "duplicate must be in the range [0.0, 1.0]")
    ok (record config { interface_name = interface })

  abbrev fraction : Text → F → List Text
  fraction name x = if less zero_f x then name ∷ percent x ∷ [] else []

  unfoldable pub build_netem_args : ShapingConfig F → List Text
  build_netem_args config =
      (if is_positive config.delay
        then codes "delay"
          ∷ milliseconds config.delay
          ∷ (if is_positive config.jitter then milliseconds config.jitter ∷ [] else [])
        else [])
      ++ (fraction (codes "loss") config.loss
          ++ (fraction (codes "corrupt") config.corrupt
              ++ (fraction (codes "duplicate") config.duplicate
                  ++ (if not (is_empty config.rate) then codes "rate" ∷ config.rate ∷ [] else []))))

  -- Whether anything but the jitter is given.
  abbrev pub shapes : ShapingConfig F → Bool
  shapes config =
      is_positive config.delay
      || (less zero_f config.loss
          || (less zero_f config.corrupt
              || (less zero_f config.duplicate || not (is_empty config.rate))))

  -- There are arguments for netem exactly when a delay, a loss, a corruption, a duplication or a
  -- rate is given; a jitter alone gives none.
  pub netem_args_given :
      (config : ShapingConfig F) → (length (build_netem_args config) == 0) ≡ not (shapes config)
  unfolding build_netem_args
  netem_args_given config = ground arith

module _ {W : Type 0} (executor : Executor W) where
  -- The body of Apply, for the arguments of netem. The wait for the duration or for the context, which
  -- both give nil, changes nothing.
  unfoldable pub apply_args : W → Text → List Text → Option Error × W
  apply_args w interface args =
      if length args == 0
      then (some nothing_to_shape, w)
      else (let (e, w') = executor w (codes "tc") (replace_words interface args) in
          if is_some e
          then (wrap_err "applying tc netem: %w: %q" e, w')
          else (none, (executor w' (codes "tc") (delete_words interface)).1))

  unfoldable pub apply :
      {F : Type 0} → Floats F → (F → Text) → W → ShapingConfig F → Option Error × W
  unfolding apply_args build_netem_args
  apply floats percent w config =
      apply_args w config.interface_name (build_netem_args floats percent config)

-- What the code relies on of tc: a replacement sets the discipline of its interface or, refused, changes
-- nothing, and a deletion clears a discipline that was set. `shape` reads the discipline of an interface.
pub record TrafficControl {W : Type 0} (executor : Executor W)
    (shape : W → Text → Option (List Text)) : Type 0 where
  pub replaces :
      (w : W) (interface : Text) (args : List Text)
      → is_some (executor w (codes "tc") (replace_words interface args)).0 ≡ false
      → shape (executor w (codes "tc") (replace_words interface args)).1 interface ≡ some args
  pub replaces_no_other :
      (w : W) (interface j : Text) (args : List Text)
      → text_eq j interface ≡ false
      → shape (executor w (codes "tc") (replace_words interface args)).1 j ≡ shape w j
  pub refusal_changes_nothing :
      (w : W) (interface j : Text) (args : List Text)
      → is_some (executor w (codes "tc") (replace_words interface args)).0 ≡ true
      → shape (executor w (codes "tc") (replace_words interface args)).1 j ≡ shape w j
  pub deletes :
      (w : W) (interface : Text)
      → is_some (shape w interface) ≡ true
      → shape (executor w (codes "tc") (delete_words interface)).1 interface ≡ none
  pub deletes_no_other :
      (w : W) (interface j : Text)
      → text_eq j interface ≡ false
      → shape (executor w (codes "tc") (delete_words interface)).1 j ≡ shape w j

is_some-wrap_err : (m : String) (e : Option Error) → is_some (wrap_err m e) ≡ is_some e
is_some-wrap_err m none = refl
is_some-wrap_err m (some e) = refl

module _ {W : Type 0} {executor : Executor W} {shape : W → Text → Option (List Text)}
    (tc : TrafficControl executor shape) where
  apply_args_ends :
      (w : W) (interface : Text) (args : List Text) (j : Text)
      → shape (apply_args executor w interface args).1 j ≡ (
          if is_some (apply_args executor w interface args).0
          then shape w j
          else if text_eq j interface
          then none
          else shape w j)
  unfolding apply_args
  apply_args_ends w interface args j = elim (Bool-cases (length args == 0)) [
    | inl empty ↦ rw empty refl
    | inr full ↦
        let (e, w') = executor w (codes "tc") (replace_words interface args) in
        elim (Bool-cases (is_some e)) [
          | inl refused ↦
              rw (full, refused, is_some-wrap_err "applying tc netem: %w: %q" e, refused)
                (tc.refusal_changes_nothing w interface j args refused)
          | inr accepted ↦
              rw (full, accepted)
                (elim (Bool-cases (text_eq j interface)) [
                  | inl same ↦
                      rw (same, (text_eq_iff j interface).0 same)
                        (tc.deletes w' interface
                          (ap is_some (tc.replaces w interface args accepted)))
                  | inr other ↦ rw other (
                      tc.deletes_no_other w' interface j other
                      ∙ tc.replaces_no_other w interface j args other)
                ])
        ]
  ]

  -- After Apply with an error every interface has the discipline that it had before; after Apply
  -- with no error the configured interface has none, and every other the one that it had. Where tc
  -- obeys TrafficControl.
  pub shaping_ends :
      {F : Type 0} (floats : Floats F) (percent : F → Text) (w : W) (config : ShapingConfig F)
      (j : Text)
      → shape (apply executor floats percent w config).1 j ≡ (
          if is_some (apply executor floats percent w config).0
          then shape w j
          else if text_eq j config.interface_name
          then none
          else shape w j)
  unfolding apply
  shaping_ends floats percent w config j =
      apply_args_ends w config.interface_name (build_netem_args floats percent config) j
