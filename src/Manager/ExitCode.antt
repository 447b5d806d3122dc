-- ===== src/Manager/ExitCode.antt =====
-- How `main` ends.
use vitastor_operator.Prelude.{
  ℕ, ◌⊎◌, ◌≡◌, ◌≢◌, ◌↔◌, refl, ap, List, [], ◌∷◌, ◌++◌, Option, none, arith, All, inl, inr,
  Option-cases,
}
use vitastor_operator.Flow.{Error}
use vitastor_operator.Types.Metadata.{vitastor_cluster, vitastor_node, vitastor_osd, vitastor_pool}
use vitastor_operator.Manager.{
  Setup, Flags, default_flags, inits, setups, run, main, setup_with_manager, add_client_go_types,
  add_control_types, get_config, new_manager, index_field, complete, add_healthz_check,
  add_readyz_check, start,
}

run_code :
    (fails : Setup → Option Error) (steps : List Setup)
    → ((run fails steps).code ≡ 0) ↔ All (λ s. fails s ≡ none) steps
unfolding run
run_code fails [] = ground arith
run_code fails (step ∷ steps) = elim (Option-cases (fails step)) [
  | inl f ↦ rw (f, run) (ground (arith, run_code fails steps))
  | inr (e, f) ↦ rw (f, run) (ground arith)
]

-- What a failed run has made: steps that passed, and then the one that failed.
run_made :
    (fails : Setup → Option Error) (steps : List Setup)
    → (run fails steps).code ≢ 0
    → (passed : List Setup) × (step : Setup) × ((run fails steps).made ≡ passed ++ step ∷ [])
      × All (λ s. fails s ≡ none) passed
      × (fails step ≢ none)
unfolding run
run_made fails [] h = absurd (h refl)
run_made fails (step ∷ steps) h = elim (Option-cases (fails step)) [
  | inr (e, f) ↦ ([], step, ground arith, tt, ground arith)
  | inl f ↦
      let (passed, last, m, p, q) = run_made fails steps (rw (f, run) at h) in
      (step ∷ passed, last, rw (f, run) (ground arith), (f, p), q)
]

run_all :
    (fails : Setup → Option Error) (steps : List Setup)
    → (run fails steps).code ≡ 0
    → (run fails steps).made ≡ steps
unfolding run
run_all fails [] h = refl
run_all fails (step ∷ steps) h = elim (Option-cases (fails step)) [
  | inl f ↦ rw (f, run) (ap (λ s. step ∷ s) (run_all fails steps (rw (f, run) at h)))
  | inr (e, f) ↦ absurd (ground (arith, run_code fails (step ∷ steps)))
]

-- What the program is to do, step by step.
abbrev pub wanted : Flags → List Setup
wanted flags =
    add_client_go_types
    ∷ add_control_types
    ∷ get_config
    ∷ new_manager (record {
      metrics_bind_address = flags.metrics_addr;
      port = 9443;
      health_probe_bind_address = flags.probe_addr;
      leader_election = flags.enable_leader_election;
      leader_election_id = "ff08a114.vitastor.io";
    })
    ∷ index_field "VitastorOSD" ".spec.nodeName"
    ∷ index_field "Pod" ".spec.node"
    ∷ complete vitastor_node
    ∷ complete vitastor_osd
    ∷ complete vitastor_cluster
    ∷ complete vitastor_pool
    ∷ add_healthz_check
    ∷ add_readyz_check
    ∷ start
    ∷ []

module _ (fails : Setup → Option Error) (parse : Flags → Flags ⊎ ℕ) (flags : Flags)
    (given : parse default_flags ≡ inl flags) where
  -- The program is one run of all its steps.
  main-eq-run : main fails parse ≡ run fails (inits ++ setups flags)
  unfolding main run
  main-eq-run = ground (arith, given)

  -- If the flags are accepted, the program exits with 0 exactly when each of these steps succeeds
  -- and these are the steps that it has made, in this order: the two registrations of types, the
  -- configuration, the manager with the options that the flags give, the two indices, the four
  -- controllers, the two checks and the start.
  pub main_exit :
      ((main fails parse).code ≡ 0)
      ↔ (All (λ s. fails s ≡ none) (wanted flags) × ((main fails parse).made ≡ wanted flags))
  unfolding setup_with_manager
  main_exit =
      let (succeeds, fully) = run_code fails (inits ++ setups flags) in
      rw main-eq-run (λ h. (succeeds h, run_all fails (inits ++ setups flags) h), λ q. fully q.0)

  -- If the flags are accepted and the program does not exit with 0, the steps that it made are some
  -- that passed and then one that failed.
  main_made :
      (main fails parse).code ≢ 0
      → (passed : List Setup) × (step : Setup) × ((main fails parse).made ≡ passed ++ step ∷ [])
        × All (λ s. fails s ≡ none) passed
        × (fails step ≢ none)
  main_made h = rw main-eq-run (run_made fails (inits ++ setups flags) (rw main-eq-run at h))
