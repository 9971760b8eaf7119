-- ===== src/Command/Started.antt =====
-- The calls of cmd/main.go up to the start of the manager.
use helios_lb.Prelude.{
  ◌≡◌, refl, ◌⊎◌, inl, inr, Bool, true, false, List, [], ◌∷◌, if◌then◌else◌, codes, Result,
  Result-cases, ok, err,
}
use helios_lb.Command.{
  Flags, Platform, SetupCall, gets_config, creates_manager, sets_up_controller, sets_up_webhook,
  adds_healthz_check, adds_readyz_check, starts_manager, Run, attempt, run_manager,
  setup_webhook_with_manager, setup_with_manager, new_reconciler, manager_options, set_up, main,
  init, program,
}

abbrev last_calls : List SetupCall
last_calls = adds_healthz_check ∷ adds_readyz_check ∷ starts_manager ∷ []

abbrev set_up_calls : Flags → List SetupCall
set_up_calls flags = if flags.enable_webhook then sets_up_webhook ∷ last_calls else last_calls

-- The calls of a run without a failure.
abbrev pub plan : Flags → List SetupCall
plan flags = gets_config ∷ creates_manager ∷ sets_up_controller ∷ set_up_calls flags

-- The calls of a run are those of the list up to the first failure, which makes the exit code 1.
unfoldable pub Follows : List SetupCall → Run → Type 0
Follows [] r = (r.calls ≡ []) × (r.code ≡ 0)
Follows (c ∷ cs) r =
    ((r.calls ≡ (c, false) ∷ []) × (r.code ≡ 1))
    ⊎ ((rest : List (SetupCall × Bool)) × (r.calls ≡ (c, true) ∷ rest)
        × Follows cs (record { code = r.code; calls = rest }))

attempt-Follows :
    {X A : Type 0}
    → (c : SetupCall) (cs : List SetupCall) (r : Result X A) (next : A → Run)
    → ((a : A) → Follows cs (next a))
    → Follows (c ∷ cs) (attempt c r next)
unfolding attempt Follows
attempt-Follows c cs (err e) next h = inl (refl, refl)
attempt-Follows c cs (ok a) next h = inr ((next a).calls, refl, h a)

module _ {W E S F C M X : Type 0} (platform : Platform W E S F C M X) where
  finished : Follows [] (record { code = 0; calls = [] })
  unfolding Follows
  finished = (refl, refl)

  run-Follows : (mgr : M) → Follows last_calls (run_manager platform mgr)
  unfolding run_manager
  run-Follows mgr =
      attempt-Follows _ (adds_readyz_check ∷ starts_manager ∷ [])
        (platform.add_healthz_check mgr (codes "healthz")) _
        (λ m.
          attempt-Follows _ (starts_manager ∷ []) (platform.add_readyz_check m (codes "readyz")) _
            (λ m'. attempt-Follows _ [] (platform.start m') _ (λ m''. finished)))

  set_up-Follows :
      (flags : Flags) (mgr : M)
      → Follows (sets_up_controller ∷ set_up_calls flags) (set_up platform flags mgr)
  unfolding set_up
  set_up-Follows flags mgr =
      attempt-Follows _ (set_up_calls flags)
        (setup_with_manager platform (new_reconciler platform mgr) mgr) _
        (webhook flags.enable_webhook)
    where
      webhook :
          (b : Bool) (m : M)
          → Follows (if b then sets_up_webhook ∷ last_calls else last_calls) (
              if b
              then attempt sets_up_webhook
                  (setup_webhook_with_manager platform m)
                  (run_manager platform)
              else run_manager platform m)
      webhook true m =
          attempt-Follows _ last_calls (setup_webhook_with_manager platform m) _ run-Follows
      webhook false m = run-Follows m

  main-Follows : (scheme : S) (flags : Flags) → Follows (plan flags) (main platform scheme flags)
  unfolding main
  main-Follows scheme flags =
      attempt-Follows _ (creates_manager ∷ sets_up_controller ∷ set_up_calls flags)
        platform.get_config _
        (λ config.
          attempt-Follows _ (sets_up_controller ∷ set_up_calls flags)
            (platform.new_manager config
              (manager_options platform.with_authentication_and_authorization scheme flags))
            _ (set_up-Follows flags))

  -- A process whose scheme cannot be registered ends with the code 2 and calls nothing. Any other makes
  -- the calls of the plan in its order, with the set-up of the webhook exactly when the flag is set, up
  -- to the first failure, which makes the exit code 1: the manager is started only when all set-ups have
  -- succeeded, and the code is 0 only when it has returned without an error.
  pub program-Follows :
      (flags : Flags)
      → ((e : X) × (init platform ≡ err e)
          × (program platform flags ≡ record { code = 2; calls = [] }))
        ⊎ ((scheme : S) × (init platform ≡ ok scheme)
            × Follows (plan flags) (program platform flags))
  unfolding program
  program-Follows flags = elim (Result-cases (init platform)) [
    | inl (e, h) ↦ inl (e, h, rw (program, h) refl)
    | inr (scheme, h) ↦ inr (scheme, h, rw (program, h) (main-Follows scheme flags))
  ]
