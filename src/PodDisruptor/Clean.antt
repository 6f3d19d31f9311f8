-- ===== src/PodDisruptor/Clean.antt =====
-- pkg/disruptors/pod.go with pkg/disruptors/controller.go: how an injection ends, and what it leaves in the pods.
use xk6_disruptor.Prelude.{◌≡◌, ◌≢◌, true, Option, none, some, List, Text, Result, ok}
use xk6_disruptor.Prelude.Floats.{Floats}
use xk6_disruptor.IntOrString.{IntOrString}
use xk6_disruptor.Pods.{Pod}
use xk6_disruptor.Controller.Arguments.{build_cleanup_cmd}
use xk6_disruptor.Controller.Commands.{VisitCommands}
use xk6_disruptor.Controller.Visitor.{PodHelper, VisitorOptions, agent_name, inject_disruptor_agent}
use xk6_disruptor.PodDisruptor.Injections.{Happening, visited, unfinished, context_ended}

-- What is assumed of the helper for pods that are told apart by name, and Clean, which says that no fault
-- is active in a pod: attaching the agent starts none, a command acts in its own pod only, the agent's
-- cleanup stops what is active there.
pub record CleanLaws {W : Type 0} (helper : PodHelper W) (Clean : Text → W → Type 0) : Type 0 where
  pub attaching :
      (p : Text) (w : W) (pod : Pod) (default_image : Text) (options : VisitorOptions)
      → Clean p w
      → Clean p (inject_disruptor_agent helper default_image options w pod).1
  pub elsewhere :
      (p q : Text) (w : W) (words : List Text)
      → p ≢ q
      → Clean p w
      → Clean p (helper.exec_in w q agent_name words).1
  pub cleaning : (p : Text) (w : W) → Clean p (helper.exec_in w p agent_name build_cleanup_cmd).1

module _ {W : Type 0} (helper : PodHelper W) (default_image : Text) (options : VisitorOptions)
    {Clean : Text → W → Type 0} (laws : CleanLaws helper Clean) where
  -- Every command comes with the agent's cleanup, and leaves its pod clean when it succeeds.
  pub record TidiesUp (command : Pod → Option (Result VisitCommands)) : Type 0 where
    pub cleanup :
        (pod : Pod) (c : VisitCommands)
        → command pod ≡ some (ok c)
        → c.cleanup ≡ some build_cleanup_cmd
    pub running :
        (pod : Pod) (c : VisitCommands) (v : W)
        → command pod ≡ some (ok c)
        → Clean pod.pod_name v
        → (helper.exec_in v pod.pod_name agent_name c.exec).0 ≡ none
        → Clean pod.pod_name (helper.exec_in v pod.pod_name agent_name c.exec).1

-- A visit that does not end changes only its own pod.
abbrev pub Apart : {W : Type 0} → (Text → W → Type 0) → Happening W → Type 0
Apart {W} Clean (visited pod) = true ≡ true
Apart {W} Clean (unfinished pod change) =
    (p : Text) (w : W) → p ≢ pod.pod_name → Clean p w → Clean p (change w)
Apart {W} Clean (context_ended e) = true ≡ true

-- The visit that does not end is of another pod.
abbrev pub Elsewhere : {W : Type 0} → Text → Happening W → Type 0
Elsewhere p (visited pod) = true ≡ true
Elsewhere p (unfinished pod change) = p ≢ pod.pod_name
Elsewhere p (context_ended e) = true ≡ true
