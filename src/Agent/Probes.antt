-- ===== src/Agent/Probes.antt =====
-- pkg/runtime/profiler/profiler.go: which probes run after Start and after Close.
use xk6_disruptor.Prelude.{
  ℕ, ◌≡◌, refl, ap, ◌∙◌, inl, inr, Bool, true, false, not, ◌&&◌, ◌||◌, none, some, List, [], ◌∷◌,
  ◌++◌, append-nil, append_assoc, arith, Error, Result, ok, err, Result-cases, ◌==◌, Option-cases,
}
use xk6_disruptor.Runtime.Files.{set}
use xk6_disruptor.Agent.Profiler.{
  Probe, probe_id, ProfilerConfig, ProbeErrors, Profiler, build_probes, start_probe, start_probes,
  close_all, close_profiler, started, start_profiler, new_profiler,
}

-- The probe is one of the list.
abbrev pub has_id : ℕ → List Probe → Bool
has_id i [] = false
has_id i (p ∷ ps) = i == probe_id p || has_id i ps

close_all_lem :
    (cs : List Probe) (running : ℕ → Bool) (i : ℕ)
    → close_all cs running i ≡ running i && not (has_id i cs)
unfolding close_all
close_all_lem [] running i = ground arith
close_all_lem (c ∷ cs) running i =
    close_all_lem cs (set (probe_id c) false running) i ∙ ground arith

-- The probes that start, one after the other, until one fails.
unfoldable pub succeeding : ProbeErrors → List Probe → List Probe
succeeding os [] = []
succeeding os (p ∷ ps) = elim (start_probe os p) [ some e ↦ [] | none ↦ p ∷ succeeding os ps ]

start_probes_running :
    (os : ProbeErrors) (ps cs : List Probe) (running : ℕ → Bool) (i : ℕ)
    → (start_probes os ps cs running).1 i ≡ running i || has_id i (succeeding os ps)
unfolding start_probes succeeding
start_probes_running os [] cs running i = ground arith
start_probes_running os (p ∷ ps) cs running i = elim (Option-cases (start_probe os p)) [
  | inr (e, n) ↦ rw (start_probes, succeeding, n) (ground arith)
  | inl n ↦
      rw (start_probes, succeeding, n)
        (start_probes_running os ps (cs ++ p ∷ []) (set (probe_id p) true running) i ∙ ground arith)
]

start_probes_closers :
    (os : ProbeErrors) (ps cs : List Probe) (running : ℕ → Bool) (closers : List Probe)
    → (start_probes os ps cs running).0 ≡ ok closers
    → (closers ≡ cs ++ ps) × (succeeding os ps ≡ ps)
unfolding start_probes succeeding
start_probes_closers os [] cs running closers e = (cc (append-nil cs), refl)
start_probes_closers os (p ∷ ps) cs running closers e = elim (Option-cases (start_probe os p)) [
  | inr (x, n) ↦ absurd (let f : err x ≡ ok closers = rw (start_probes, n) at e in cc)
  | inl n ↦
      let ih =
        start_probes_closers os ps (cs ++ p ∷ []) (set (probe_id p) true running) closers
          (rw (start_probes, n) at e) in
      (ih.0 ∙ append_assoc cs (p ∷ []) ps, rw (succeeding, n) (ap (◌∷◌ p) ih.1))
]

started_ok :
    (p : Profiler) (r : Result (List Probe) × (ℕ → Bool)) (closers : List Probe)
    → r.0 ≡ ok closers
    → started p r ≡ (none, record p { closers = closers; running = r.1 })
unfolding started
started_ok p (ok cs, running) closers e = cc
started_ok p (err x, running) closers e = cc

started_err :
    (p : Profiler) (r : Result (List Probe) × (ℕ → Bool)) (x : Error)
    → r.0 ≡ err x
    → started p r ≡ (some x, close_profiler (record p { running = r.1 }))
unfolding started
started_err p (ok cs, running) x e = cc
started_err p (err y, running) x e = cc

module _ (os : ProbeErrors) (c : ProfilerConfig) (probes : List Probe)
    (built : build_probes c ≡ ok probes) where
  start_profiler_lem :
      (p : Profiler) → start_profiler os c p ≡ started p (start_probes os probes [] p.running)
  unfolding start_profiler
  start_profiler_lem p = rw (start_profiler, built) refl

  -- When a new profiler starts with no error, exactly the probes asked for run, and none after a Close.
  pub close-start_profiler :
      (start_profiler os c new_profiler).0 ≡ none
      → (i : ℕ)
      → let p = (start_profiler os c new_profiler).1 in
        (p.running i ≡ has_id i probes) × ((close_profiler p).running i ≡ false)
  unfolding close_profiler
  close-start_profiler h i =
      let r = start_probes os probes [] new_profiler.running in
      let runs = start_probes_running os probes [] new_profiler.running i in
      elim (Result-cases r.0) [
        | inl (closers, e) ↦
            let s = start_profiler_lem new_profiler ∙ started_ok new_profiler r closers e in
            let (same, all) = start_probes_closers os probes [] new_profiler.running closers e in
            rw (s, close_all_lem closers r.1 i, runs, all, same) (ground arith)
        | inr (x, e) ↦
            let s = start_profiler_lem new_profiler ∙ started_err new_profiler r x e in
            absurd (let f : some x ≡ none = rw s at h in cc)
      ]

  -- When the probes can be built and Start of a new profiler reports an error, the probes that run
  -- are those that started before one failed, and a Close stops none of them.
  pub failed_start_leaks :
      (e : Error)
      → (start_profiler os c new_profiler).0 ≡ some e
      → (i : ℕ)
      → ((start_profiler os c new_profiler).1.running i ≡ has_id i (succeeding os probes))
        × ((close_profiler (start_profiler os c new_profiler).1).running i
            ≡ has_id i (succeeding os probes))
  unfolding close_profiler close_all
  failed_start_leaks e h i =
      let r = start_probes os probes [] new_profiler.running in
      elim (Result-cases r.0) [
        | inl (closers, n) ↦
            let s = start_profiler_lem new_profiler ∙ started_ok new_profiler r closers n in
            absurd (let f : none ≡ some e = rw s at h in cc)
        | inr (x, n) ↦
            let s = start_profiler_lem new_profiler ∙ started_err new_profiler r x n in
            let left = start_probes_running os probes [] new_profiler.running i in rw s (left, left)
      ]

built_of_started :
    (os : ProbeErrors) (c : ProfilerConfig) (p : Profiler)
    → (start_profiler os c p).0 ≡ none
    → (probes : List Probe) × (build_probes c ≡ ok probes)
unfolding start_profiler
built_of_started os c p h = elim (Result-cases (build_probes c)) [
  | inl built ↦ built
  | inr (e, n) ↦ absurd (let f : some e ≡ none = rw (start_profiler, n) at h in cc)
]

-- No probe is left once a profiler that started is closed.
pub closed_profiler :
    (os : ProbeErrors) (c : ProfilerConfig)
    → (start_profiler os c new_profiler).0 ≡ none
    → (i : ℕ) → (close_profiler (start_profiler os c new_profiler).1).running i ≡ false
closed_profiler os c h i =
    let (probes, built) = built_of_started os c new_profiler h in
    (close-start_profiler os c probes built h i).1
