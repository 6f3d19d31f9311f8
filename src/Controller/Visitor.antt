-- ===== src/Controller/Visitor.antt =====
-- pkg/disruptors/controller.go: PodAgentVisitor, which attaches the agent to a pod and runs the
-- commands there. The helper's calls to the cluster are parameters over the state W of the cluster.
use xk6_disruptor.Prelude.{
  Bool, true, not, Option, none, some, List, Text, codes, is_empty, Error, wrap, is_canceled,
  Result, ok, err, if◌then◌else◌, ℤ, pos, ltb_ℤ, eq_ℤ,
}
use xk6_disruptor.Pods.{Pod}
use xk6_disruptor.Controller.Commands.{VisitCommands}

pub record EphemeralContainer : Type 0 where
  pub container_name : Text
  pub image : Text

pub record AttachOptions : Type 0 where
  pub timeout : ℤ
  pub ignore_if_exists : Bool

-- AttachEphemeralContainer and Exec of helpers.PodHelper; a call may fail.
pub record PodHelper (W : Type 0) : Type 0 where
  pub attach_ephemeral_container : W → Text → EphemeralContainer → AttachOptions → Option Error × W
  pub exec_in : W → Text → Text → List Text → Option Error × W

pub record VisitorOptions : Type 0 where
  pub inject_timeout : ℤ
  pub agent_image : Text

abbrev pub default_timeout : ℤ
default_timeout = pos 30000000000

-- NewPodAgentVisitor: a timeout of 0 is the default, and a negative one is none.
unfoldable pub new_pod_agent_visitor : VisitorOptions → VisitorOptions
new_pod_agent_visitor options =
    let timeout =
      if eq_ℤ options.inject_timeout (pos 0) then default_timeout else options.inject_timeout in
    record options { inject_timeout = if ltb_ℤ timeout (pos 0) then pos 0 else timeout }

abbrev pub agent_name : Text
agent_name = codes "xk6-agent"

-- The error that Visit reports for one of Exec: none when the context was cancelled.
unfoldable pub report : Option Error → Option Error
report none = none
report (some e) =
    if not (is_canceled e)
    then some (wrap "failed command execution for pod %q: %w \n%s" e)
    else none

module _ {W : Type 0} (helper : PodHelper W) (default_image : Text) (options : VisitorOptions) where
  unfoldable pub inject_disruptor_agent : W → Pod → Option Error × W
  inject_disruptor_agent w pod =
      let image = if is_empty options.agent_image then default_image else options.agent_image in
      helper.attach_ephemeral_container w pod.pod_name
        (record { container_name = agent_name; image = image })
        (record { timeout = options.inject_timeout; ignore_if_exists = true })

  -- The error of the cleanup is dropped.
  unfoldable pub clean_after : Option Error → Option (List Text) → W → Pod → W
  clean_after none words w pod = w
  clean_after (some e) none w pod = w
  clean_after (some e) (some words) w pod = (helper.exec_in w pod.pod_name agent_name words).1

  unfoldable pub run_commands : W → Pod → Result VisitCommands → Option Error × W
  unfolding clean_after report
  run_commands w pod (err e) = (some (wrap "unable to get command for pod %q: %w" e), w)
  run_commands w pod (ok commands) =
      let (e, w') = helper.exec_in w pod.pod_name agent_name commands.exec in
      (report e, clean_after e commands.cleanup w' pod)

  -- PodAgentVisitor.Visit
  unfoldable pub visit : (Pod → Result VisitCommands) → W → Pod → Option Error × W
  unfolding inject_disruptor_agent run_commands
  visit command w pod =
      let (e, w') = inject_disruptor_agent w pod in
      elim e [
        | some f ↦ (some (wrap "injecting agent in the pod %q: %w" f), w')
        | none ↦ run_commands w' pod (command pod)
      ]
