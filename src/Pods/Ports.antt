-- ===== src/Pods/Ports.antt =====
-- pkg/utils/kubernetes.go: the port that FindPort gives.
use xk6_disruptor.Prelude.{
  ◌≡◌, refl, sym, ap, ◌∙◌, ◌≢◌, ◌⊎◌, inl, inr, Bool, true, false, Option, none, some, List, [], ◌∷◌,
  text_eq, ok, if◌then◌else◌, Bool-cases, Option-cases, All, eq_ℤ, eq_ℤ→eq, eq_ℤ_refl, IsInt32,
}
use xk6_disruptor.IntOrString.{
  IntOrString, value_type_int, value_type_string, type_of, int32, from_int32,
}
use xk6_disruptor.IntOrString.RoundTrip.{int32-from_int32}
use xk6_disruptor.Pods.{ContainerPort, Pod, first_port, first_in, exported, has_ports, find_port}

-- Every port number of the pod is an int32, as its Go type says.
abbrev pub HasInt32Ports : Pod → Type 0
HasInt32Ports pod = All (All (λ p. IsInt32 p.container_port)) pod.containers

-- What is found passes the test, and keeps a property that all the ports have.
first_port_sound :
    (test : ContainerPort → Bool) (P : ContainerPort → Type 0) (ports : List ContainerPort)
    (p : ContainerPort)
    → first_port test ports ≡ some p
    → All P ports
    → (test p ≡ true) × P p
unfolding first_port
first_port_sound test P [] p h all = absurd cc
first_port_sound test P (q ∷ ports) p h all = elim (Bool-cases (test q)) [
  | inl hit ↦
      let e : q ≡ p = (let f : some q ≡ some p = rw hit at h in cc) in rw (sym e) (hit, all.0)
  | inr miss ↦ first_port_sound test P ports p (rw miss at h) all.1
]

first_in_sound :
    (test : ContainerPort → Bool) (P : ContainerPort → Type 0) (ports : List (List ContainerPort))
    (p : ContainerPort)
    → first_in test ports ≡ some p
    → All (All P) ports
    → (test p ≡ true) × P p
unfolding first_in
first_in_sound test P [] p h all = absurd cc
first_in_sound test P (ports ∷ rest) p h all = elim (Option-cases (first_port test ports)) [
  | inl e ↦ first_in_sound test P rest p (rw (first_in, e) at h) all.1
  | inr (q, e) ↦ first_port_sound test P ports p (e ∙ (rw (first_in, e) at h)) all.0
]

-- A test that a found entry passes finds an entry.
first_port_again :
    (test other : ContainerPort → Bool) (ports : List ContainerPort) (p : ContainerPort)
    → first_port test ports ≡ some p
    → other p ≡ true
    → first_port other ports ≢ none
unfolding first_port
first_port_again test other [] p h hit = absurd cc
first_port_again test other (q ∷ ports) p h hit = elim (Bool-cases (other q)) [
  | inl now ↦ rw now (λ e. cc)
  | inr not_now ↦ rw not_now (elim (Bool-cases (test q)) [
    | inl here ↦
        let e : q ≡ p = (let f : some q ≡ some p = rw here at h in cc) in absurd (cc (ap other e))
    | inr later ↦ first_port_again test other ports p (rw later at h) hit
  ])
]

first_in_again :
    (test other : ContainerPort → Bool) (ports : List (List ContainerPort)) (p : ContainerPort)
    → first_in test ports ≡ some p
    → other p ≡ true
    → first_in other ports ≢ none
unfolding first_in
first_in_again test other [] p h hit = absurd cc
first_in_again test other (ports ∷ rest) p h hit = elim (Option-cases (first_port other ports)) [
  | inr (q, e) ↦ rw (first_in, e) (λ f. cc)
  | inl e ↦
      rw (first_in, e)
        (elim (Option-cases (first_port test ports)) [
          | inl f ↦ first_in_again test other rest p (rw (first_in, f) at h) hit
          | inr (q, f) ↦
              absurd (first_port_again test other ports p (f ∙ (rw (first_in, f) at h)) hit e)
        ])
]

find_number :
    (pod : Pod) (test : ContainerPort → Bool) (p : ContainerPort)
    → HasInt32Ports pod
    → first_in test pod.containers ≡ some p
    → find_port (from_int32 p.container_port) pod ≡ some (ok (from_int32 p.container_port))
unfolding find_port exported
find_number pod test p bounded h =
    let v = p.container_port in
    let same : ContainerPort → Bool = λ q. eq_ℤ q.container_port v in
    let range =
      (first_in_sound test (λ q. IsInt32 q.container_port) pod.containers p h bounded).1 in
    elim (Option-cases (first_in same pod.containers)) [
      | inl none_left ↦ absurd (first_in_again test same pod.containers p h (eq_ℤ_refl v) none_left)
      | inr (q, e) ↦
          let equal =
            eq_ℤ→eq q.container_port v
              (first_in_sound same (λ q. IsInt32 q.container_port) pod.containers q e bounded).0 in
          rw (find_port, (int32-from_int32 v range).1, (int32-from_int32 v range).0, e, equal) refl
    ]

exported-some :
    (o : Option ContainerPort) (found : IntOrString)
    → exported o ≡ some (ok found)
    → (p : ContainerPort) × (o ≡ some p) × (found ≡ from_int32 p.container_port)
unfolding exported
exported-some none found h = absurd cc
exported-some (some p) found h = (p, refl, cc)

-- The found port is the number of a port that the pod lists.
abbrev pub Listed : Pod → IntOrString → Type 0
Listed pod found =
    (test : ContainerPort → Bool) × (p : ContainerPort) × (first_in test pod.containers ≡ some p)
    × (found ≡ from_int32 p.container_port)

not_exported :
    (b : Bool) (found : IntOrString) → (if b then none else exported none) ≢ some (ok found)
unfolding exported
not_exported true found h = cc
not_exported false found h = cc

type-cases :
    (port : IntOrString) → (type_of port ≡ value_type_string) ⊎ (type_of port ≡ value_type_int)
type-cases port = elim (type_of port) as (λ t. (t ≡ value_type_string) ⊎ (t ≡ value_type_int)) [
  | value_type_string ↦ inl refl
  | value_type_int ↦ inr refl
]

pub find_port-Listed :
    (port found : IntOrString) (pod : Pod) → find_port port pod ≡ some (ok found) → Listed pod found
unfolding find_port
find_port-Listed port found pod h = elim (type-cases port) [
  | inl e ↦
      let test : ContainerPort → Bool = λ p. text_eq p.container_port_name port in
      let (p, hit, same) =
        exported-some (first_in test pod.containers) found (rw (find_port, e) at h) in
      (test, p, hit, same)
  | inr e ↦ elim (Option-cases (int32 port)) [
    | inl panic ↦
        absurd (not_exported (has_ports pod.containers) found (rw (find_port, e, panic) at h))
    | inr (n, f) ↦
        let test : ContainerPort → Bool = λ p. eq_ℤ p.container_port n in
        let (p, hit, same) =
          exported-some (first_in test pod.containers) found (rw (find_port, e, f) at h) in
        (test, p, hit, same)
  ]
]

-- In a pod whose port numbers are int32, the port that FindPort gives, looked up again in the same
-- pod, gives itself.
pub find_port_idempotent :
    (port found : IntOrString) (pod : Pod)
    → HasInt32Ports pod
    → find_port port pod ≡ some (ok found)
    → find_port found pod ≡ some (ok found)
find_port_idempotent port found pod bounded h =
    let (test, p, hit, e) = find_port-Listed port found pod h in
    rw e (find_number pod test p bounded hit)
