-- ===== src/Controller/Reconciler/Entries.antt =====
-- The entries of the status over the loop of a reconciliation
-- (internal/controller/heliosconfig_controller.go).
use helios_lb.Prelude.{
  ◌≡◌, refl, sym, subst, List, [], ◌∷◌, inl, inr, some, if-elim, Bool-cases, Text, text_eq,
  text_eq_refl, Dict, lookup, insert, lookup-insert, Result, ok, err,
}
use helios_lb.Api.Types.{HeliosConfig}
use helios_lb.Controller.Types.{Service, Client, Machinery}
use helios_lb.Controller.Manager.{AssignError, Outcome, allocate_and_assign, within_quota}
use helios_lb.Controller.Reconciler.{
  State, emit, send, allocation_event, allocation_samples, updated, Reconciled, set_condition,
  succeeded_status, failed_status, record_allocation, periodic, allocation_failure, status_updated,
  service_assigned, serve,
}
use helios_lb.Controller.Reconciler.Laws.{SameConfig, ReturnsSent}

-- The map has an entry under the name.
abbrev pub Has : Text → Dict Text → Type 0
Has name m = (ip : Text) × (lookup name m ≡ some ip)

Has-insert : (name k v : Text) (m : Dict Text) → Has name m → Has name (insert k v m)
Has-insert name k v m (ip, h) = elim (Bool-cases (text_eq k name)) [
  | inl q ↦ (v, rw (lookup-insert k name v m, q) refl)
  | inr q ↦ (ip, rw (lookup-insert k name v m, q) h)
]

pub insert-Has : (k v : Text) (m : Dict Text) → Has k (insert k v m)
insert-Has k v m = (v, rw (lookup-insert k k v m, text_eq_refl k) refl)

module _ {W E : Type 0} (client : Client W E) (k : Machinery) (cause : AssignError E → Text) where
  -- The entry under a name is there at the end.
  abbrev pub Persists : Text → Reconciled client k cause → Type 0
  Persists name (r, hc, st) = Has name hc.status.allocated_ips

  pub updated-status :
      (hc : HeliosConfig) (r : Result E HeliosConfig)
      → ((d : HeliosConfig) → r ≡ ok d → SameConfig d hc)
      → (updated hc r).status ≡ hc.status
  unfolding updated
  updated-status hc (ok d) s = (s d refl).1
  updated-status hc (err e) s = refl

  failure-Persists :
      (name : Text)
      → ReturnsSent client
      → (svc : Service) (hc : HeliosConfig) (st : State W) (e : AssignError E)
      → Has name hc.status.allocated_ips
      → Persists name (allocation_failure client k cause svc hc st e)
  unfolding allocation_failure failed_status set_condition
  failure-Persists name sent svc hc st e h =
      subst (λ x. Has name x.allocated_ips)
        (sym (updated-status _ _ (λ d q. sent.status_update _ _ d q))) h

  status_updated-Persists :
      (name : Text) (next : HeliosConfig → State W → Reconciled client k cause)
      → ((d : HeliosConfig) (s : State W)
          → Has name d.status.allocated_ips
          → Persists name (next d s))
      → (hc : HeliosConfig) (st : State W) (r : Result E HeliosConfig × W)
      → ((d : HeliosConfig) → r.0 ≡ ok d → SameConfig d hc)
      → Has name hc.status.allocated_ips
      → Persists name (status_updated client k cause next hc st r)
  unfolding status_updated
  status_updated-Persists name next keeps hc st (err e, w) s h = h
  status_updated-Persists name next keeps hc st (ok d, w) s h =
      keeps d _ (subst (λ x. Has name x.allocated_ips) (sym (s d refl).1) h)

  assigned-Persists :
      (name : Text)
      → ReturnsSent client
      → (next : HeliosConfig → State W → Reconciled client k cause)
      → ((d : HeliosConfig) (s : State W)
          → Has name d.status.allocated_ips
          → Persists name (next d s))
      → (svc : Service) (hc : HeliosConfig) (st : State W) (o : Outcome client)
      → Has name hc.status.allocated_ips
      → Persists name (service_assigned client k cause next svc hc st o)
  unfolding service_assigned succeeded_status set_condition record_allocation
  assigned-Persists name sent next keeps svc hc st (err e, nm, w) h =
      failure-Persists name sent svc hc (record st { manager = nm; world = w }) e h
  assigned-Persists name sent next keeps svc hc st (ok (ip, ipv6), nm, w) h =
      status_updated-Persists name next keeps _
        (emit (allocation_event svc ip ipv6)
          (send (allocation_samples ip ipv6) (record st { manager = nm; world = w })))
        _ (λ d q. sent.status_update _ _ d q)
        (Has-insert name svc.name ip hc.status.allocated_ips h)

  pub serve-Persists :
      (name : Text)
      → ReturnsSent client
      → (services : List Service) (hc : HeliosConfig) (st : State W)
      → Has name hc.status.allocated_ips
      → Persists name (serve client k cause services hc st)
  unfolding serve periodic
  serve-Persists name sent [] hc st h = h
  serve-Persists name sent (svc ∷ more) hc st h =
      if-elim (Persists name) (within_quota hc) _ _
        (λ q.
          assigned-Persists name sent (serve client k cause more)
            (λ d s. serve-Persists name sent more d s) svc hc st
            (allocate_and_assign client st.manager st.world hc svc) h)
        (λ q. h)
