-- ===== src/PodDisruptor/Selector.antt =====
-- pkg/disruptors/selector.go: which pods a selector or a service gives. What the cluster lists is a
-- parameter. A map of labels is the list of its entries in the order of a range, and none where it is nil.
use xk6_disruptor.Prelude.{
  Bool, true, false, not, ◌&&◌, Option, none, some, List, [], ◌∷◌, ◌++◌, Text, codes, text_eq,
  is_empty, Error, message, wrap, is_some, Result, ok, err, ◌>>◌, fail_if, if◌then◌else◌,
}
use xk6_disruptor.Pods.{Pod}

abbrev pub Labels : Type 0
Labels = Option (List (Text × Text))

pub record PodSelectorSpec : Type 0 where
  pub namespace : Text
  pub select : Labels
  pub exclude : Labels

abbrev pub entries_of : Labels → List (Text × Text)
entries_of none = []
entries_of (some labels) = labels

-- helpers.PodFilter
pub record PodFilter : Type 0 where
  pub select : Labels
  pub exclude : Labels

-- ErrSelectorNoPods and ErrServiceNoTargets
abbrev pub selector_no_pods : Error
selector_no_pods = message "no pods found matching selector"

abbrev pub service_no_targets : Error
service_no_targets = message "service does not have any backing pods"

-- reflect.DeepEqual of the attributes with the empty ones: a map that is empty and not nil differs.
unfoldable pub new_pod_selector : PodSelectorSpec → Result PodSelectorSpec
new_pod_selector spec =
    if is_empty spec.namespace && not (is_some spec.select) && not (is_some spec.exclude)
    then err
        (message "namespace, select and exclude attributes in pod selector cannot all be empty")
    else ok spec

unfoldable pub namespace_or_default : PodSelectorSpec → Text
namespace_or_default spec =
    if not (is_empty spec.namespace) then spec.namespace else codes "default"

-- What Targets makes of the listed pods: an empty list is an error.
unfoldable pub some_pods : Error → Result (List Pod) → Result (List Pod)
some_pods none_found (err e) = err e
some_pods none_found (ok []) = err none_found
some_pods none_found (ok (pod ∷ pods)) = ok (pod ∷ pods)

unfoldable pub selector_targets :
    (PodFilter → Result (List Pod)) → PodSelectorSpec → Result (List Pod)
unfolding some_pods
selector_targets list spec =
    some_pods (wrap "finding pods matching '%s'" selector_no_pods)
      (list (record { select = spec.select; exclude = spec.exclude }))

unfoldable pub service_targets : (Text → Result (List Pod)) → Text → Result (List Pod)
unfolding some_pods
service_targets get_targets service =
    some_pods (wrap "finding pods matching%s/%s" service_no_targets) (get_targets service)

-- NewServiceDisruptor: what it checks before it asks for the service.
unfoldable pub new_service_disruptor {ℓ} :
    {S : Type ℓ} → (Text → Text → Result S) → Text → Text → Result S
new_service_disruptor get_service service namespace =
    fail_if (is_empty service) (message "must specify a service name")
    >> fail_if (is_empty namespace) (message "must specify a namespace")
    >> get_service namespace service

-- strings.TrimSuffix(s, ", ")
unfoldable pub trim_comma : Text → Text
unfolding text_eq
trim_comma [] = []
trim_comma (c ∷ s) =
    let rest = trim_comma s in if text_eq (c ∷ s) (codes ", ") then [] else c ∷ rest

unfoldable pub label_texts : List (Text × Text) → Text
label_texts [] = []
label_texts ((key, value) ∷ rest) =
    key ++ (codes "=" ++ (value ++ (codes ", " ++ label_texts rest)))

unfoldable pub group_labels : Text → List (Text × Text) → Text
unfolding trim_comma label_texts
group_labels group [] = []
group_labels group (label ∷ labels) =
    trim_comma (group ++ codes "(" ++ label_texts (label ∷ labels)) ++ codes "), "

abbrev pub no_labels : List (Text × Text) → Bool
no_labels [] = true
no_labels (label ∷ labels) = false

-- String, without the quoted namespace at its end.
unfoldable pub selected_text : PodSelectorSpec → Text
unfolding group_labels trim_comma
selected_text spec =
    if no_labels (entries_of spec.select) && no_labels (entries_of spec.exclude)
    then codes "all pods"
    else trim_comma (
        codes "pods "
        ++ (group_labels (codes "including") (entries_of spec.select)
            ++ group_labels (codes "excluding") (entries_of spec.exclude)))
