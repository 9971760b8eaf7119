-- ===== src/Controller/Reconciler/Quota.antt =====
-- The quota of a config over a whole reconciliation
-- (internal/controller/heliosconfig_controller.go).
use helios_lb.Prelude.{
  ℕ, ◌^◌, ◌≤◌, ◌<◌, ◌++◌, ◌≡◌, refl, sym, ◌∙◌, ap, subst, true, List, [], ◌∷◌, length, arith,
  if-elim, Bool-cases, inl, inr, Text, Dict, length-insert-le, Result, ok, err,
}
use helios_lb.Prelude.Int.{pos, to_int32}
use helios_lb.Api.Types.{HeliosConfig}
use helios_lb.Controller.Types.{Service, Client, Machinery}
use helios_lb.Controller.Manager.{
  check_ip_conflicts, release_all, AssignError, Outcome, allocate_and_assign, within_quota,
}
use helios_lb.Controller.Reconciler.{
  config_finalizer, cleanup_started, release_samples, allocation_event, allocation_samples, emit,
  send, State, updated, record_allocation, Reconciled, set_condition, succeeded_status,
  failed_status, periodic, allocation_failure, status_updated, service_assigned, serve,
}
use helios_lb.Controller.Reconciler.Main.{
  conflict_found, conflicts_checked, services_listed, allocate_services, finalizer_removed,
  handle_deletion, finalizer_present, initialized, finalizer_added, reconcile_config,
}
use helios_lb.Controller.Reconciler.Laws.{SameConfig, ReturnsSent, Finalizers}

-- The config has the quota `m`, and no more entries of `AllocatedIPs`.
abbrev pub Capped : ℕ → HeliosConfig → Type 0
Capped m hc = (hc.spec.max_allocations ≡ pos m) × (length hc.status.allocated_ips ≤ m)

Capped-same : (m : ℕ) (d c : HeliosConfig) → SameConfig d c → Capped m c → Capped m d
Capped-same m d c (s, t) (e, l) =
    (ap (λ x. x.max_allocations) s ∙ e, subst (λ x. length x.allocated_ips ≤ m) (sym t) l)

-- Below its quota a config has room for one more.
room :
    (m : ℕ) (hc : HeliosConfig)
    → 0 < m
    → m < 2 ^ 31
    → Capped m hc
    → within_quota hc ≡ true
    → length hc.status.allocated_ips < m
unfolding within_quota to_int32
room m hc pm small (e, l) q = ground (arith, e, q)

module _ {W E : Type 0} (client : Client W E) (k : Machinery) (cause : AssignError E → Text) where
  -- A reconciliation that leaves the config with `m` entries at most.
  abbrev pub Keeps : ℕ → Reconciled client k cause → Type 0
  Keeps m (r, hc, st) = Capped m hc

  updated-Capped :
      (m : ℕ) (hc : HeliosConfig) (r : Result E HeliosConfig)
      → ((d : HeliosConfig) → r ≡ ok d → SameConfig d hc)
      → Capped m hc
      → Capped m (updated hc r)
  unfolding updated
  updated-Capped m hc (ok d) s c = Capped-same m d hc (s d refl) c
  updated-Capped m hc (err e) s c = c

  failure-Keeps :
      (m : ℕ)
      → ReturnsSent client
      → (svc : Service) (hc : HeliosConfig) (st : State W) (e : AssignError E) → Capped m hc
      → Keeps m (allocation_failure client k cause svc hc st e)
  unfolding allocation_failure failed_status set_condition
  failure-Keeps m sent svc hc st e c = updated-Capped m _ _ (λ d q. sent.status_update _ _ d q) c

  status_updated-Keeps :
      (m : ℕ) (next : HeliosConfig → State W → Reconciled client k cause)
      → ((d : HeliosConfig) (s : State W) → Capped m d → Keeps m (next d s))
      → (hc : HeliosConfig) (st : State W) (r : Result E HeliosConfig × W)
      → ((d : HeliosConfig) → r.0 ≡ ok d → SameConfig d hc)
      → Capped m hc
      → Keeps m (status_updated client k cause next hc st r)
  unfolding status_updated
  status_updated-Keeps m next keeps hc st (err e, w) s c = c
  status_updated-Keeps m next keeps hc st (ok d, w) s c =
      keeps d _ (Capped-same m d hc (s d refl) c)

  -- A service may be served while the config has room.
  assigned-Keeps :
      (m : ℕ)
      → ReturnsSent client
      → (next : HeliosConfig → State W → Reconciled client k cause)
      → ((d : HeliosConfig) (s : State W) → Capped m d → Keeps m (next d s))
      → (svc : Service) (hc : HeliosConfig) (st : State W) (o : Outcome client) → Capped m hc
      → length hc.status.allocated_ips < m
      → Keeps m (service_assigned client k cause next svc hc st o)
  unfolding service_assigned succeeded_status set_condition record_allocation
  assigned-Keeps m sent next keeps svc hc st (err e, nm, w) c r =
      failure-Keeps m sent svc hc (record st { manager = nm; world = w }) e c
  assigned-Keeps m sent next keeps svc hc st (ok (ip, ipv6), nm, w) (e, l) r =
      status_updated-Keeps m next keeps _
        (emit (allocation_event svc ip ipv6)
          (send (allocation_samples ip ipv6) (record st { manager = nm; world = w })))
        _ (λ d q. sent.status_update _ _ d q)
        (e, omega (arith, r, length-insert-le svc.name ip hc.status.allocated_ips))

  serve-Keeps :
      (m : ℕ)
      → 0 < m
      → m < 2 ^ 31
      → ReturnsSent client
      → (services : List Service) (hc : HeliosConfig) (st : State W) → Capped m hc
      → Keeps m (serve client k cause services hc st)
  unfolding serve periodic
  serve-Keeps m pm small sent [] hc st c = c
  serve-Keeps m pm small sent (svc ∷ more) hc st c = elim (Bool-cases (within_quota hc)) [
    | inl q ↦ rw q (
        assigned-Keeps m sent (serve client k cause more)
          (λ d s. serve-Keeps m pm small sent more d s) svc hc st
          (allocate_and_assign client st.manager st.world hc svc) c (room m hc pm small c q))
    | inr q ↦ rw q c
  ]

  checked-Keeps :
      (m : ℕ)
      → 0 < m
      → m < 2 ^ 31
      → ReturnsSent client
      → (services : List Service) (hc : HeliosConfig) (st : State W) (r : Result E (Dict Text))
      → Capped m hc
      → Keeps m (conflicts_checked client k cause services hc st r)
  unfolding conflicts_checked conflict_found set_condition
  checked-Keeps m pm small sent services hc st (err e) c = c
  checked-Keeps m pm small sent services hc st (ok []) c =
      serve-Keeps m pm small sent services hc st c
  checked-Keeps m pm small sent services hc st (ok (x ∷ xs)) c =
      updated-Capped m _ _ (λ d q. sent.status_update _ _ d q) c

  removed-Keeps :
      (m : ℕ) (hc : HeliosConfig) (st : State W) (r : Result E HeliosConfig × W)
      → ((d : HeliosConfig) → r.0 ≡ ok d → SameConfig d hc)
      → Capped m hc
      → Keeps m (finalizer_removed client k cause hc st r)
  unfolding finalizer_removed
  removed-Keeps m hc st (err e, w) s c = c
  removed-Keeps m hc st (ok d, w) s c = Capped-same m d hc (s d refl) c

  released-Keeps :
      (m : ℕ)
      → ReturnsSent client
      → Finalizers k
      → (hc : HeliosConfig) (st : State W) → Capped m hc
      → Keeps m (handle_deletion client k cause hc st)
  unfolding handle_deletion
  released-Keeps m sent fin hc st c =
      let started = emit (cleanup_started (length hc.status.allocated_ips)) st in
      let (nm, w) = release_all client st.manager st.world hc in
      let released =
        send (release_samples hc.status.allocated_ips ++ release_samples hc.status.allocated_ipv6s)
          (record started { manager = nm; world = w }) in
      let removed = k.remove_finalizer hc config_finalizer in
      let kept =
        removed-Keeps m removed released (client.update_config w removed)
          (λ d p. sent.update w removed d p)
          (Capped-same m removed hc (fin.remove_keeps hc config_finalizer) c) in
      if-elim (Keeps m) (k.contains_finalizer hc config_finalizer) _ (ok 0, hc, st) (λ q. kept)
        (λ q. c)

  listed-Keeps :
      (m : ℕ)
      → 0 < m
      → m < 2 ^ 31
      → ReturnsSent client
      → (hc : HeliosConfig) (st : State W) (r : Result E (List Service)) → Capped m hc
      → Keeps m (services_listed client k cause hc st r)
  unfolding services_listed
  listed-Keeps m pm small sent hc st (err e) c = c
  listed-Keeps m pm small sent hc st (ok services) c =
      checked-Keeps m pm small sent _ hc st (check_ip_conflicts client st.world hc) c

  present-Keeps :
      (m : ℕ)
      → 0 < m
      → m < 2 ^ 31
      → ReturnsSent client
      → Finalizers k
      → (hc : HeliosConfig) (st : State W) → Capped m hc
      → Keeps m (finalizer_present client k cause hc st)
  unfolding finalizer_present allocate_services
  present-Keeps m pm small sent fin hc st c =
      if-elim (Keeps m) hc.deleting _ _ (λ q. released-Keeps m sent fin hc st c)
        (λ q. listed-Keeps m pm small sent hc st (client.list_services st.world) c)

  initialized-Keeps :
      (m : ℕ)
      → 0 < m
      → m < 2 ^ 31
      → ReturnsSent client
      → Finalizers k
      → (hc : HeliosConfig) (st : State W) (r : Result E HeliosConfig × W)
      → ((d : HeliosConfig) → r.0 ≡ ok d → SameConfig d hc)
      → Capped m hc
      → Keeps m (initialized client k cause hc st r)
  unfolding initialized
  initialized-Keeps m pm small sent fin hc st (err e, w) s c = c
  initialized-Keeps m pm small sent fin hc st (ok d, w) s c =
      present-Keeps m pm small sent fin d _ (Capped-same m d hc (s d refl) c)

  added-Keeps :
      (m : ℕ)
      → 0 < m
      → m < 2 ^ 31
      → ReturnsSent client
      → Finalizers k
      → (hc : HeliosConfig) (st : State W) (r : Result E HeliosConfig × W)
      → ((d : HeliosConfig) → r.0 ≡ ok d → SameConfig d hc)
      → Capped m hc
      → Keeps m (finalizer_added client k cause hc st r)
  unfolding finalizer_added set_condition
  added-Keeps m pm small sent fin hc st (err e, w) s c = c
  added-Keeps m pm small sent fin hc st (ok d, w) s c =
      initialized-Keeps m pm small sent fin _ (record st { world = w }) _
        (λ x q. sent.status_update _ _ x q) (Capped-same m d hc (s d refl) c)

  -- A reconciliation of a config whose quota `m` lies between 1 and 2^31 - 1, and whose `AllocatedIPs`
  -- has `m` entries at most, leaves it so on every exit, for any cluster whose updates return a config
  -- with the spec and the status that were sent, and any finalizer helpers that leave both alone. Only
  -- the entries of `AllocatedIPs` are counted: `AllocatedIPv6s` is outside the quota, and a config with
  -- both ranges may hold more addresses than its quota.
  pub reconcile_config-Capped :
      (m : ℕ)
      → 0 < m
      → m < 2 ^ 31
      → ReturnsSent client
      → Finalizers k
      → (hc : HeliosConfig) (st : State W) → Capped m hc
      → Keeps m (reconcile_config client k cause hc st)
  unfolding reconcile_config
  reconcile_config-Capped m pm small sent fin hc st c =
      let added = k.add_finalizer hc config_finalizer in
      let kept =
        added-Keeps m pm small sent fin added st (client.update_config st.world added)
          (λ d p. sent.update st.world added d p)
          (Capped-same m added hc (fin.add_keeps hc config_finalizer) c) in
      if-elim (Keeps m) (k.contains_finalizer hc config_finalizer) _ _
        (λ q. present-Keeps m pm small sent fin hc st c) (λ q. kept)
