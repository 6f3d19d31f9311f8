-- ===== src/Pods/ServicePorts.antt =====
-- pkg/utils/kubernetes.go: the port that GetTargetPort gives.
use xk6_disruptor.Prelude.{
  Text, ◌≡◌, refl, ap, inl, inr, none, some, List, [], ◌∷◌, ◌++◌, text_eq, ok, Bool-cases,
  Option-cases, eq_ℤ,
}
use xk6_disruptor.IntOrString.{IntOrString, is_null, is_zero, is_int, int32}
use xk6_disruptor.Pods.{ServicePort, get_target_port, find_service_port, default_port}

-- The text is the target port of an entry of the list.
abbrev pub IsTarget : List ServicePort → Text → Type 0
IsTarget ports target =
    (before : List ServicePort) × (p : ServicePort) × (after : List ServicePort) × (ports
      ≡ before ++ p ∷ after)
    × (target ≡ p.target_port)

later :
    (q : ServicePort) (ports : List ServicePort) (target : Text)
    → IsTarget ports target
    → IsTarget (q ∷ ports) target
later q ports target (before, p, after, e, same) = (q ∷ before, p, after, ap (λ l. q ∷ l) e, same)

found_here :
    (p : ServicePort) (ports : List ServicePort) (target : Text)
    → some (ok p.target_port) ≡ some (ok target)
    → IsTarget (p ∷ ports) target
found_here p ports target h = ([], p, ports, refl, cc)

find_service_port_listed :
    (svc_port : IntOrString) (ports : List ServicePort) (target : Text)
    → find_service_port svc_port ports ≡ some (ok target)
    → IsTarget ports target
unfolding find_service_port
find_service_port_listed svc_port [] target h = absurd cc
find_service_port_listed svc_port (p ∷ ports) target h =
    elim (Bool-cases (text_eq svc_port p.service_port_name)) [
      | inl named ↦ found_here p ports target (rw (find_service_port, named) at h)
      | inr other ↦ elim (Bool-cases (is_int svc_port)) [
        | inr name ↦ later p ports target (
            find_service_port_listed svc_port ports target
              (rw (find_service_port, other, name) at h))
        | inl number ↦ elim (Option-cases (int32 svc_port)) [
          | inl panic ↦ absurd (
              let e : none ≡ some (ok target) = rw (find_service_port, other, number, panic) at h in
              cc)
          | inr (n, read) ↦ elim (Bool-cases (eq_ℤ n p.service_port)) [
            | inl equal ↦
                found_here p ports target (rw (find_service_port, other, number, read, equal) at h)
            | inr away ↦ later p ports target (
                find_service_port_listed svc_port ports target
                  (rw (find_service_port, other, number, read, away) at h))
          ]
        ]
      ]
    ]

default_port_listed :
    (ports : List ServicePort) (target : Text)
    → default_port ports ≡ some (ok target)
    → IsTarget ports target
unfolding default_port
default_port_listed [] target h = absurd cc
default_port_listed (p ∷ []) target h = found_here p [] target h
default_port_listed (p ∷ q ∷ ports) target h = absurd cc

-- The port that GetTargetPort gives is the target port of a port that the service lists.
pub get_target_port_listed :
    (ports : List ServicePort) (svc_port : IntOrString) (target : Text)
    → get_target_port ports svc_port ≡ some (ok target)
    → IsTarget ports target
unfolding get_target_port
get_target_port_listed ports svc_port target h = elim (Bool-cases (is_null svc_port)) [
  | inl unset ↦ default_port_listed ports target (rw (get_target_port, unset) at h)
  | inr set ↦ elim (Option-cases (is_zero svc_port)) [
    | inl panic ↦
        absurd (let e : none ≡ some (ok target) = rw (get_target_port, set, panic) at h in cc)
    | inr (z, read) ↦ elim (Bool-cases z) [
      | inl zero_port ↦
          default_port_listed ports target (rw (get_target_port, set, read, zero_port) at h)
      | inr given ↦
          find_service_port_listed svc_port ports target
            (rw (get_target_port, set, read, given) at h)
    ]
  ]
]
