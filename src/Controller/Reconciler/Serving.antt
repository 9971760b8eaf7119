-- ===== src/Controller/Reconciler/Serving.antt =====
-- How often the loop over the services gives an address
-- (internal/controller/heliosconfig_controller.go).
use helios_lb.Prelude.{ℕ, ◌≡◌, refl, sym, subst, ◌⊎◌, List, [], ◌∷◌, if-elim, Text, Result, ok, err}
use helios_lb.Network.Allocator.History.{NamesPool}
use helios_lb.Api.Types.{HeliosConfig}
use helios_lb.Controller.Types.{Service, Client, Machinery}
use helios_lb.Controller.Manager.{AssignError, Outcome, allocate_and_assign, within_quota}
use helios_lb.Controller.Manager.Fresh.{Succeeds}
use helios_lb.Controller.Manager.Before.{allocate_and_assign_before}
use helios_lb.Controller.Reconciler.{
  State, allocation_event, allocation_samples, emit, send, requeue_reason, set_condition,
  succeeded_status, record_allocation, Reconciled, periodic, allocation_failure, status_updated,
  service_assigned, serve,
}
use helios_lb.Controller.Reconciler.Laws.{SameConfig, ReturnsSent}
use helios_lb.Controller.Reconciler.Handed.{
  names, Within, Within-Keeps, Within-quiet, Within-granted,
}

-- The ranges of the config are pools.
abbrev pub Pools : HeliosConfig → Type 0
Pools hc = NamesPool hc.spec.ip_range × ((hc.spec.ipv6_range ≡ []) ⊎ NamesPool hc.spec.ipv6_range)

pub Pools-same : (d c : HeliosConfig) → SameConfig d c → Pools c → Pools d
Pools-same d c (s, t) p =
    subst (λ x. NamesPool x.ip_range × ((x.ipv6_range ≡ []) ⊎ NamesPool x.ipv6_range)) (sym s) p

module _ {W E : Type 0} (client : Client W E) (k : Machinery) (cause : AssignError E → Text) (n : ℕ)
    (t : Text) where
  abbrev pub GivesWithin : Reconciled client k cause → Type 0
  GivesWithin (r, hc, st) = Within n t st.manager st.events

  abbrev pub Step : (HeliosConfig → State W → Reconciled client k cause) → Type 0
  Step next =
      (d : HeliosConfig) (s : State W)
      → Pools d
      → Within n t s.manager s.events
      → GivesWithin (next d s)

  status_updated-GivesWithin :
      (next : HeliosConfig → State W → Reconciled client k cause)
      → Step next
      → (hc : HeliosConfig) (st : State W) (r : Result E HeliosConfig × W)
      → ((d : HeliosConfig) → r.0 ≡ ok d → SameConfig d hc)
      → Pools hc
      → Within n t st.manager st.events
      → GivesWithin (status_updated client k cause next hc st r)
  unfolding status_updated
  status_updated-GivesWithin next keeps hc st (err e, w) s p o = o
  status_updated-GivesWithin next keeps hc st (ok d, w) s p o =
      keeps d (record st { world = w }) (Pools-same d hc (s d refl) p) o

  assigned-GivesWithin :
      ReturnsSent client
      → (next : HeliosConfig → State W → Reconciled client k cause) → Step next
      → (svc : Service) (hc : HeliosConfig) (st : State W) (o : Outcome client) → Pools hc
      → Succeeds client st.manager o
      → Within n t st.manager st.events
      → GivesWithin (service_assigned client k cause next svc hc st o)
  unfolding service_assigned allocation_failure emit send requeue_reason succeeded_status
      set_condition record_allocation names
  assigned-GivesWithin sent next keeps svc hc st (err e, nm, w) p g o =
      Within-quiet n t nm st.events _ refl (Within-Keeps n t st.manager nm st.events g o)
  assigned-GivesWithin sent next keeps svc hc st (ok (ip, ipv6), nm, w) p g o =
      status_updated-GivesWithin next keeps _
        (emit (allocation_event svc ip ipv6)
          (send (allocation_samples ip ipv6) (record st { manager = nm; world = w })))
        _ (λ d q. sent.status_update _ _ d q) p
        (Within-granted n t ip ipv6 svc st.manager nm st.events g o)

  pub serve-GivesWithin :
      ReturnsSent client → (services : List Service) → Step (serve client k cause services)
  unfolding serve periodic emit requeue_reason send names
  serve-GivesWithin sent [] hc st p o = o
  serve-GivesWithin sent (svc ∷ more) hc st p o =
      if-elim GivesWithin (within_quota hc) _ _
        (λ q.
          assigned-GivesWithin sent (serve client k cause more) (serve-GivesWithin sent more) svc hc
            st (allocate_and_assign client st.manager st.world hc svc) p
            (allocate_and_assign_before client st.manager st.world hc svc p.0 p.1) o)
        (λ q. Within-quiet n t st.manager st.events _ refl o)
