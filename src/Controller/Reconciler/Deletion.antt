-- ===== src/Controller/Reconciler/Deletion.antt =====
-- The deletion of a config (internal/controller/heliosconfig_controller.go).
use helios_lb.Prelude.{
  ◌≡◌, refl, sym, ◌∙◌, ap, true, false, ◌||◌, ◌++◌, if◌then◌else◌, if-true, if-false, length, Text,
  Result, ok, err,
}
use helios_lb.Network.Allocator.{is_used}
use helios_lb.Api.Types.{HeliosConfig}
use helios_lb.Controller.Types.{Client, Machinery}
use helios_lb.Controller.Manager.{AssignError, release_all}
use helios_lb.Controller.Manager.Deletion.{is_value, release_all-is_used}
use helios_lb.Controller.Reconciler.{
  State, config_finalizer, emit, send, release_samples, cleanup_started, Reconciled,
}
use helios_lb.Controller.Reconciler.Main.{
  finalizer_removed, handle_deletion, finalizer_present, finalizer_added, reconcile_config,
}
use helios_lb.Controller.Reconciler.Laws.{Finalizers, Deletions}

module _ {W E : Type 0} (client : Client W E) (k : Machinery) (cause : AssignError E → Text) where
  -- The state in which the finalizer is removed.
  abbrev released : HeliosConfig → State W → State W
  released hc st =
      let started = emit (cleanup_started (length hc.status.allocated_ips)) st in
      let (nm, w) = release_all client st.manager st.world hc in
      send (release_samples hc.status.allocated_ips ++ release_samples hc.status.allocated_ipv6s)
        (record started { manager = nm; world = w })

  deleted :
      (hc : HeliosConfig) (st : State W)
      → k.contains_finalizer hc config_finalizer ≡ true
      → hc.deleting ≡ true
      → reconcile_config client k cause hc st
        ≡ finalizer_removed client k cause
            (k.remove_finalizer hc config_finalizer)
            (released hc st)
            (client.update_config (released hc st).world (k.remove_finalizer hc config_finalizer))
  unfolding reconcile_config finalizer_present handle_deletion send emit
  deleted hc st f d = if-true _ _ _ f ∙ (if-true _ _ _ d ∙ if-true _ _ _ f)

  removed-manager :
      (hc : HeliosConfig) (st : State W) (r : Result E HeliosConfig × W)
      → (finalizer_removed client k cause hc st r).2.manager ≡ st.manager
  unfolding finalizer_removed emit
  removed-manager hc st (err e, w) = refl
  removed-manager hc st (ok c, w) = refl

  -- A deletion that does not fail leaves no finalizer, and is not run again.
  abbrev pub Gone : Reconciled client k cause → Type 0
  Gone (err e, hc, st) = Unit {0}
  Gone (ok n, hc, st) = (n ≡ 0) × (k.contains_finalizer hc config_finalizer ≡ false)

  removed-Gone :
      (hc : HeliosConfig) (st : State W) (r : Result E HeliosConfig × W)
      → ((d : HeliosConfig) → r.0 ≡ ok d → k.contains_finalizer d config_finalizer ≡ false)
      → Gone (finalizer_removed client k cause hc st r)
  unfolding finalizer_removed
  removed-Gone hc st (err e, w) g = tt
  removed-Gone hc st (ok c, w) g = (refl, g c refl)

  -- The reconciliation of a config that is being deleted and has the finalizer leaves an address in
  -- use exactly when it was before and the status does not record it, even when it fails to remove
  -- the finalizer; when it does not fail, the config has no finalizer and is not queued again. The
  -- server keeps the finalizers that it is sent.
  pub reconcile_config-Gone :
      (hc : HeliosConfig) (st : State W) (t : Text)
      → Finalizers k
      → Deletions client k config_finalizer
      → k.contains_finalizer hc config_finalizer ≡ true
      → hc.deleting ≡ true
      → (is_used (reconcile_config client k cause hc st).2.manager.ip_allocator t ≡ (
          if is_value t hc.status.allocated_ips || is_value t hc.status.allocated_ipv6s
          then false
          else is_used st.manager.ip_allocator t))
        × Gone (reconcile_config client k cause hc st)
  unfolding send
  reconcile_config-Gone hc st t fin law f d =
      let removed = k.remove_finalizer hc config_finalizer in
      let st' = released hc st in
      let r = client.update_config st'.world removed in
      rw (deleted hc st f d) (
        ap (λ nm. is_used nm.ip_allocator t) (removed-manager removed st' r)
            ∙ release_all-is_used client st.manager st.world hc t,
        removed-Gone removed st' r
            (λ c p. law.finalizers st'.world removed c p ∙ fin.removed hc config_finalizer),
      )

  refused :
      (hc : HeliosConfig) (st : State W) (m : Result E HeliosConfig × W) (e : E)
      → m.0 ≡ err e
      → (finalizer_added client k cause hc st m).0 ≡ err e
  unfolding finalizer_added
  refused hc st (err x, w) e p = cc
  refused hc st (ok c, w) e p = cc

  again :
      (hc : HeliosConfig) (st : State W) (m : Result E HeliosConfig × W) (d : HeliosConfig)
      → (finalizer_removed client k cause hc st m).0 ≡ ok 0
      → d ≡ (finalizer_removed client k cause hc st m).1
      → m.0 ≡ ok d
  unfolding finalizer_removed
  again hc st (err x, w) d p q = cc
  again hc st (ok c, w) d p q = ap ok (sym q)

  adding_fails :
      (d : HeliosConfig) (st : State W)
      → Deletions client k config_finalizer
      → d.deleting ≡ true
      → k.contains_finalizer d config_finalizer ≡ false
      → (e : E) × ((reconcile_config client k cause d st).0 ≡ err e)
  unfolding reconcile_config
  adding_fails d st law m f =
      let added = k.add_finalizer d config_finalizer in
      let (e, p) = law.refuses st.world d m f in
      (
        e,
        ap (λ (r : Reconciled client k cause). r.0) (if-false _ _ _ f)
            ∙ refused added st (client.update_config st.world added) e p,
      )

  -- After a deletion that did not fail, each further reconciliation of the config as the server
  -- returned it, which another finalizer keeps there, fails: it adds the finalizer again, and the
  -- server refuses new finalizers on a config that is being deleted.
  pub deleted_again_fails :
      (hc : HeliosConfig) (st st' : State W)
      → Finalizers k
      → Deletions client k config_finalizer
      → k.contains_finalizer hc config_finalizer ≡ true
      → hc.deleting ≡ true
      → (reconcile_config client k cause hc st).0 ≡ ok 0
      → (e : E) × ((reconcile_config client k cause (reconcile_config client k cause hc st).1 st').0
          ≡ err e)
  unfolding send
  deleted_again_fails hc st st' fin law f d q =
      let removed = k.remove_finalizer hc config_finalizer in
      let w = (released hc st).world in
      let r = client.update_config w removed in
      let c = (reconcile_config client k cause hc st).1 in
      let e = deleted hc st f d in
      let same = again removed (released hc st) r c (ap (λ x. x.0) (sym e) ∙ q) (ap (λ x. x.1) e) in
      adding_fails c st' law (law.mark w removed c same ∙ (law.removed_mark hc ∙ d))
        (law.finalizers w removed c same ∙ fin.removed hc config_finalizer)
