-- ===== src/Examples/Nodes.antt =====
-- The theorems on nodes, in a cluster of which the state is a function from names to nodes.
use xk6_disruptor.Prelude.{
  count_if, ◌≡◌, refl, sym, ap, ◌∙◌, Bool, true, false, Option, none, some, List, [], ◌∷◌, Text,
  codes, text_eq, text_eq_refl, Error, external, is_some, Result, ok, err, ltb, if◌then◌else◌,
}
use xk6_disruptor.Nodes.Api.{Taint, Node, NodePod, NodeApi}
use xk6_disruptor.Nodes.Helper
use xk6_disruptor.Nodes.Helper.{NodeEvictOptions, evict_pods, is_daemon_set, has_local}
use xk6_disruptor.Nodes.Disruptor.{NodeTaintFault, taint_node, drain_node, drain}
use xk6_disruptor.Nodes.Laws.{NodeLaws, SameNodes}
use xk6_disruptor.Nodes.Eviction.{is_failure, evictions, eligible, evict_pods-eligible}
use xk6_disruptor.Nodes.Taints.{taint_node_restores}
use xk6_disruptor.Nodes.Drain.{drain_restores, failed_drain_leaves_cordon}

-- Whether a node is cordoned, its taints, its addresses.
abbrev Spec : Type 0
Spec = Bool × List Taint × List (Text × Text)

abbrev Cluster : Type 0
Cluster = Text → Option Spec

abbrev missing : Error
missing = external 404

abbrev node_at : Text → Option Spec → Result Node
node_at name none = err missing
node_at name (some (b, taints, addresses)) =
    ok (record { name = name; unschedulable = b; taints = taints; addresses = addresses })

abbrev put : Text → Spec → Cluster → Cluster
put name spec w s = if text_eq s name then some spec else w s

abbrev patched : Cluster → Text → Bool → Option Spec → Option Error × Cluster
patched w name b none = (some missing, w)
patched w name b (some (c, taints, addresses)) = (none, put name (b, taints, addresses) w)

-- Two pods run on every node. An eviction from the namespace "locked" fails.
abbrev web_pod : NodePod
web_pod = record {
  namespace = codes "shop";
  name = codes "web";
  owner_kinds = [];
  local_volumes = [];
}

abbrev agent_pod : NodePod
agent_pod = record {
  namespace = codes "locked";
  name = codes "agent";
  owner_kinds = codes "DaemonSet" ∷ [];
  local_volumes = [];
}

abbrev api : NodeApi Cluster
api = record {
  get = λ w name. node_at name (w name);
  list = λ w labels. ok [];
  update = λ w n. (none, put n.name (n.unschedulable, n.taints, n.addresses) w);
  patch = λ w name b. patched w name b (w name);
  list_pods = λ w name. ok (web_pod ∷ agent_pod ∷ []);
  evict = λ w namespace pod.
      (if text_eq namespace (codes "locked") then some (external 403) else none, w);
  create_pod = λ w spec. (none, w);
  delete_pod = λ w namespace pod. (none, w);
  is_not_found = λ e. false;
}

node_at_named : (name : Text) (o : Option Spec) (n : Node) → node_at name o ≡ ok n → n.name ≡ name
node_at_named name none n h = absurd cc
node_at_named name (some (b, taints, addresses)) n h = cc

put_same : (name : Text) (spec : Spec) (w : Cluster) → put name spec w name ≡ some spec
put_same name spec w = rw (text_eq_refl name) refl

updated :
    (w : Cluster) (name : Text) (n : Node)
    → n.name ≡ name
    → node_at name (put n.name (n.unschedulable, n.taints, n.addresses) w name) ≡ ok n
updated w name n h = rw (sym h, put_same n.name (n.unschedulable, n.taints, n.addresses) w) refl

patched_cases :
    (w : Cluster) (name : Text) (b : Bool) (o : Option Spec)
    → is_some (patched w name b o).0 ≡ false
    → (n : Node) × (node_at name o ≡ ok n)
      × (node_at name ((patched w name b o).1 name) ≡ ok (record n { unschedulable = b }))
patched_cases w name b none h = absurd cc
patched_cases w name b (some (c, taints, addresses)) h = (
  record { name = name; unschedulable = c; taints = taints; addresses = addresses },
  refl,
  rw (put_same name (b, taints, addresses) w) refl,
)

patched_other :
    (w : Cluster) (name s : Text) (b : Bool) (o : Option Spec)
    → text_eq s name ≡ false
    → node_at s ((patched w name b o).1 s) ≡ node_at s (w s)
patched_other w name s b none h = refl
patched_other w name s b (some (c, taints, addresses)) h = rw h refl

laws : NodeLaws api
laws = record {
  get_named = λ w name n h. node_at_named name (w name) n h;
  get_updated = λ w name n h accepted. updated w name n h;
  get_other = λ w name s n h other. rw (h, other) refl;
  get_patched = λ w name b n accepted found.
      let (m, at, after) = patched_cases w name b (w name) accepted in
      let same : m ≡ n = let e : ok m ≡ ok n = sym at ∙ found in cc in
      after ∙ ap (λ (k : Node). ok (record k { unschedulable = b })) same;
  get_patched_other = λ w name s b other. patched_other w name s b (w name) other;
  patch_found =
      λ w name b accepted. let (m, at, after) = patched_cases w name b (w name) accepted in (m, at);
  get_evicted = λ w namespace pod s. refl;
}

-- Every name is a node, which is schedulable and has no taint.
abbrev fresh : Cluster
fresh name = some (false, [], [])

abbrev names : List Text
names = codes "a" ∷ codes "b" ∷ []

abbrev quiet : Cluster → Cluster
quiet w = w

abbrev all_pods : NodeEvictOptions
all_pods = record { skip_daemon_sets = false; delete_local_data = true }

abbrev no_daemons : NodeEvictOptions
no_daemons = record { skip_daemon_sets = true; delete_local_data = true }

abbrev fault : NodeTaintFault
fault = record { key = codes "chaos"; value = codes "on"; effect = codes "NoSchedule" }

evict_pods-eligible_example :
    (is_some (evict_pods api fresh (codes "a") no_daemons).0
      ≡ ltb 0 (
          count_if
            (is_failure api)
            (evictions api fresh (eligible no_daemons (web_pod ∷ agent_pod ∷ []))).0))
    × ((evict_pods api fresh (codes "a") no_daemons).1
        ≡ (evictions api fresh (eligible no_daemons (web_pod ∷ agent_pod ∷ []))).1)
evict_pods-eligible_example =
    evict_pods-eligible api no_daemons fresh (codes "a") (web_pod ∷ agent_pod ∷ []) refl

taint_node_restores_example : SameNodes api fresh (taint_node api fault quiet fresh names).1
unfolding taint_node
taint_node_restores_example =
    taint_node_restores laws fault quiet fresh names (λ v s. refl)
      (λ s n h. let e : node_at s (fresh s) ≡ ok n = h in cc) refl

drain_restores_example : SameNodes api fresh (drain api no_daemons quiet fresh names).1
unfolding drain
drain_restores_example =
    drain_restores laws no_daemons quiet fresh names (λ v s. refl)
      (λ s n h. let e : node_at s (fresh s) ≡ ok n = h in cc) refl

failed_drain_leaves_cordon_example :
    (is_some (drain_node api all_pods quiet fresh (codes "a")).0 ≡ true)
    × (api.get (drain_node api all_pods quiet fresh (codes "a")).1 (codes "a")
        ≡ ok (record { name = codes "a"; unschedulable = true; taints = []; addresses = [] }))
unfolding Helper.cordon evict_pods
failed_drain_leaves_cordon_example =
    failed_drain_leaves_cordon laws all_pods quiet fresh (codes "a")
      (record { name = codes "a"; unschedulable = false; taints = []; addresses = [] }) refl refl
      refl
