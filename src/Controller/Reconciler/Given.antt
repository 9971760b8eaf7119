-- ===== src/Controller/Reconciler/Given.antt =====
-- How often a reconciliation gives an address
-- (internal/controller/heliosconfig_controller.go).
use helios_lb.Prelude.{
  ◌≤◌, ◌+◌, ◌&&◌, ◌||◌, if◌then◌else◌, ℕ, ◌≡◌, refl, ap, true, List, [], ◌∷◌, if-elim, arith,
  length, ◌++◌, Text, Dict, Result, ok, err,
}
use helios_lb.Network.Manager.{NetworkManager}
use helios_lb.Api.Types.{HeliosConfig}
use helios_lb.Controller.Types.{Service, Client, Machinery}
use helios_lb.Controller.Manager.{AssignError, release_all, check_ip_conflicts}
use helios_lb.Controller.Manager.Deletion.{is_value, release_all-is_used}
use helios_lb.Controller.Reconciler.{
  State, config_finalizer, cleanup_started, emit, send, requeue_reason, reconcile_metrics,
  release_samples, set_condition, Reconciled,
}
use helios_lb.Controller.Reconciler.Main.{
  conflict_found, conflicts_checked, services_listed, allocate_services, finalizer_removed,
  handle_deletion, finalizer_present, initialized, finalizer_added, reconcile_config, measured,
  config_read, reconcile,
}
use helios_lb.Controller.Reconciler.Laws.{SameConfig, ReturnsSent, Finalizers, KeepsMark}
use helios_lb.Controller.Reconciler.Handed.{names, handed, spare, Within, Within-quiet}
use helios_lb.Controller.Reconciler.Serving.{Pools, Pools-same, GivesWithin, serve-GivesWithin}

-- One for a config that is being deleted and has recorded the address.
unfoldable pub dropped : Text → HeliosConfig → ℕ
dropped t hc =
    if hc.deleting && (is_value t hc.status.allocated_ips || is_value t hc.status.allocated_ipv6s)
    then 1
    else 0

dropped-same :
    (t : Text) (d c : HeliosConfig)
    → SameConfig d c
    → d.deleting ≡ c.deleting
    → dropped t d ≡ dropped t c
unfolding dropped
dropped-same t d c (q, s) m =
    ground
      (arith, m, ap (λ x. is_value t x.allocated_ips) s, ap (λ x. is_value t x.allocated_ipv6s) s)

-- A release of what a deleted config has recorded frees the address only when it is recorded.
released_spare :
    {W E : Type 0}
    → (client : Client W E) (t : Text) (nm : NetworkManager) (w : W) (hc : HeliosConfig)
    → hc.deleting ≡ true
    → spare t (release_all client nm w hc).0 ≤ spare t nm + dropped t hc
unfolding dropped spare
released_spare client t nm w hc d = ground (arith, release_all-is_used client nm w hc t, d)

module _ {W E : Type 0} (client : Client W E) (k : Machinery) (cause : AssignError E → Text) (n : ℕ)
    (t : Text) where
  checked-GivesWithin :
      ReturnsSent client
      → (services : List Service) (hc : HeliosConfig) (st : State W) (r : Result E (Dict Text))
      → Pools hc
      → Within n t st.manager st.events
      → GivesWithin client k cause n t (conflicts_checked client k cause services hc st r)
  unfolding conflicts_checked conflict_found emit requeue_reason send names
  checked-GivesWithin sent services hc st (err e) p o = o
  checked-GivesWithin sent services hc st (ok []) p o =
      serve-GivesWithin client k cause n t sent services hc st p o
  checked-GivesWithin sent services hc st (ok (c ∷ cs)) p o =
      Within-quiet n t st.manager st.events _ refl o

  listed-GivesWithin :
      ReturnsSent client
      → (hc : HeliosConfig) (st : State W) (r : Result E (List Service)) → Pools hc
      → Within n t st.manager st.events
      → GivesWithin client k cause n t (services_listed client k cause hc st r)
  unfolding services_listed
  listed-GivesWithin sent hc st (err e) p o = o
  listed-GivesWithin sent hc st (ok services) p o =
      checked-GivesWithin sent _ hc st (check_ip_conflicts client st.world hc) p o

  removed-GivesWithin :
      (hc : HeliosConfig) (st : State W) (r : Result E HeliosConfig × W)
      → Within n t st.manager st.events
      → GivesWithin client k cause n t (finalizer_removed client k cause hc st r)
  unfolding finalizer_removed emit names
  removed-GivesWithin hc st (err e, w) o = Within-quiet n t st.manager st.events _ refl o
  removed-GivesWithin hc st (ok c, w) o = Within-quiet n t st.manager st.events _ refl o

  -- A run that stays within, also when the config's deletion frees the address.
  abbrev Runs : HeliosConfig → Reconciled client k cause → State W → Type 0
  Runs hc r st =
      Pools hc
      → handed t st.events + spare t st.manager + dropped t hc ≤ n
      → GivesWithin client k cause n t r

  deletion-GivesWithin :
      (hc : HeliosConfig) (st : State W)
      → hc.deleting ≡ true
      → Runs hc (handle_deletion client k cause hc st) st
  unfolding handle_deletion emit send names
  deletion-GivesWithin hc st d p o =
      let started = emit (cleanup_started (length hc.status.allocated_ips)) st in
      let (nm, w) = release_all client st.manager st.world hc in
      let freed = released_spare client t st.manager st.world hc d in
      let released =
        send (release_samples hc.status.allocated_ips ++ release_samples hc.status.allocated_ipv6s)
          (record started { manager = nm; world = w }) in
      let removed = k.remove_finalizer hc config_finalizer in
      if-elim (GivesWithin client k cause n t) (k.contains_finalizer hc config_finalizer) _ _
        (λ q.
          removed-GivesWithin removed released (client.update_config w removed)
            (Within-quiet n t nm st.events _ refl (omega (arith, freed, o))))
        (λ q. omega (arith, o))

  present-GivesWithin :
      ReturnsSent client
      → (hc : HeliosConfig) (st : State W) → Runs hc (finalizer_present client k cause hc st) st
  unfolding finalizer_present allocate_services
  present-GivesWithin sent hc st p o =
      if-elim (GivesWithin client k cause n t) hc.deleting _ _
        (λ q. deletion-GivesWithin hc st q p o)
        (λ q. listed-GivesWithin sent hc st (client.list_services st.world) p (omega (arith, o)))

  -- What an update returns, with the deletion mark that was sent.
  abbrev Returned : HeliosConfig → Result E HeliosConfig × W → Type 0
  Returned hc r = (d : HeliosConfig) → r.0 ≡ ok d → SameConfig d hc × (d.deleting ≡ hc.deleting)

  initialized-GivesWithin :
      ReturnsSent client
      → (hc : HeliosConfig) (st : State W) (r : Result E HeliosConfig × W) → Returned hc r
      → Runs hc (initialized client k cause hc st r) st
  unfolding initialized
  initialized-GivesWithin sent hc st (err e, w) same p o = omega (arith, o)
  initialized-GivesWithin sent hc st (ok d, w) same p o =
      let (e, m) = same d refl in
      let u = dropped-same t d hc e m in
      present-GivesWithin sent d (record st { world = w }) (Pools-same d hc e p)
        (omega (arith, u, o))

  added-GivesWithin :
      ReturnsSent client
      → KeepsMark client k
      → (hc : HeliosConfig) (st : State W) → (r : Result E HeliosConfig × W) → Returned hc r
      → Runs hc (finalizer_added client k cause hc st r) st
  unfolding finalizer_added set_condition dropped
  added-GivesWithin sent marks hc st (err e, w) same p o = omega (arith, o)
  added-GivesWithin sent marks hc st (ok d, w) same p o =
      let (e, m) = same d refl in
      let u = dropped-same t d hc e m in
      initialized-GivesWithin sent _ (record st { world = w }) _
        (λ c q. (sent.status_update _ _ c q, marks.status_update _ _ c q)) (Pools-same d hc e p)
        (omega (arith, u, o))

  reconcile_config-GivesWithin :
      ReturnsSent client
      → Finalizers k
      → KeepsMark client k
      → (hc : HeliosConfig) (st : State W) → Runs hc (reconcile_config client k cause hc st) st
  unfolding reconcile_config
  reconcile_config-GivesWithin sent fins marks hc st p o =
      let added = k.add_finalizer hc config_finalizer in
      let kept = fins.add_keeps hc config_finalizer in
      let u = dropped-same t added hc kept (marks.added hc config_finalizer) in
      if-elim (GivesWithin client k cause n t) (k.contains_finalizer hc config_finalizer) _ _
        (λ q. present-GivesWithin sent hc st p o)
        (λ q.
          added-GivesWithin sent marks added st (client.update_config st.world added)
            (λ d e. (sent.update _ _ d e, marks.update _ _ d e)) (Pools-same added hc kept p)
            (omega (arith, u, o)))

-- The ranges of a config that is read are pools.
abbrev pub ReadsPools : {E : Type 0} → Result E HeliosConfig → Type 0
ReadsPools (err e) = Unit {0}
ReadsPools (ok hc) = Pools hc

unfoldable pub read_drops : {E : Type 0} → Text → Result E HeliosConfig → ℕ
unfolding dropped
read_drops t (err e) = 0
read_drops t (ok hc) = dropped t hc

module _ {W E : Type 0} (client : Client W E) (k : Machinery) (cause : AssignError E → Text) (n : ℕ)
    (t : Text) where
  -- The address was given at most `n` times, as above.
  abbrev pub Bounded : State W → Type 0
  Bounded st = Within n t st.manager st.events

  read-Bounded :
      ReturnsSent client
      → Finalizers k
      → KeepsMark client k
      → (duration : ℕ) (st : State W) → (r : Result E HeliosConfig) → ReadsPools r
      → handed t st.events + spare t st.manager + read_drops t r ≤ n
      → Bounded (config_read client k cause duration st r).1
  unfolding config_read measured reconcile_metrics send read_drops
  read-Bounded sent fins marks duration st (err e) p o = omega (arith, o)
  read-Bounded sent fins marks duration st (ok hc) p o =
      reconcile_config-GivesWithin client k cause n t sent fins marks hc st p o

  pub reconcile-Bounded :
      ReturnsSent client
      → Finalizers k
      → KeepsMark client k
      → (duration : ℕ) (namespace name : Text) (st : State W)
      → ReadsPools (client.get_config st.world namespace name)
      → handed t st.events
          + spare t st.manager
          + read_drops t (client.get_config st.world namespace name)
        ≤ n
      → Bounded (reconcile client k cause duration namespace name st).1
  unfolding reconcile
  reconcile-Bounded sent fins marks duration namespace name st p o =
      read-Bounded sent fins marks duration st (client.get_config st.world namespace name) p o
