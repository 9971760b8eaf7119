-- ===== src/Controller/Manager/Services.antt =====
-- What `assignIPToService` (internal/controller/ip_manager.go) relies on of the Kubernetes API for
-- services, and what it makes of one.
use helios_lb.Prelude.{
  Bool-cases, Dict, text_eq_refl, ◌≡◌, refl, sym, ap, subst, inl, inr, [], ◌∷◌, if◌then◌else◌, Text,
  text_eq, insert, Result, ok, err,
}
use helios_lb.Api.Types.{load_balancer_class_helios}
use helios_lb.Controller.Types.{Service, Client}
use helios_lb.Controller.Manager.{class_annotation}

-- The states that failed runs of a function lead to, one behind the other.
pub data Attempts {W E : Type 0} (f : W → Result E (Unit {0}) × W) (w : W) : W → Type 0 where
  no_attempt : Attempts f w w
  failed_attempt : (v v' : W) (e : E) → Attempts f w v → f v ≡ (err e, v') → Attempts f w v'

-- What the controller relies on of the Kubernetes API, while no one else writes the services: a service
-- is read under its names; an update of the status stores the status and the metadata that were sent
-- and leaves the spec, an update stores the spec and the metadata and leaves the status, each returns
-- what it has stored, and one that fails stores nothing; a retry that succeeds ends with a run that
-- does, behind runs that fail.
pub record StoresServices {W E : Type 0} (client : Client W E) : Type 0 where
  pub named :
      (w : W) (namespace name : Text) (s : Service)
      → client.get_service w namespace name ≡ ok s
      → (s.namespace ≡ namespace) × (s.name ≡ name)
  pub status_update :
      (w w' : W) (svc stored s : Service)
      → client.get_service w svc.namespace svc.name ≡ ok stored
      → client.update_status w svc ≡ (ok s, w')
      → (s ≡ record stored { annotations = svc.annotations; ingress = svc.ingress })
        × (client.get_service w' svc.namespace svc.name ≡ ok s)
  pub status_failed :
      (w w' : W) (svc stored : Service) (e : E)
      → client.get_service w svc.namespace svc.name ≡ ok stored
      → client.update_status w svc ≡ (err e, w')
      → client.get_service w' svc.namespace svc.name ≡ ok stored
  pub update :
      (w w' : W) (svc stored s : Service)
      → client.get_service w svc.namespace svc.name ≡ ok stored
      → client.update w svc ≡ (ok s, w')
      → (s ≡ record svc { ingress = stored.ingress })
        × (client.get_service w' svc.namespace svc.name ≡ ok s)
  pub update_failed :
      (w w' : W) (svc stored : Service) (e : E)
      → client.get_service w svc.namespace svc.name ≡ ok stored
      → client.update w svc ≡ (err e, w')
      → client.get_service w' svc.namespace svc.name ≡ ok stored
  pub retry :
      (f : W → Result E (Unit {0}) × W) (w w' : W)
      → client.retry_on_conflict f w ≡ (ok tt, w')
      → (v : W) × Attempts f w v × (f v ≡ (ok tt, w'))

-- The service with the annotation of its class and its addresses, and all else as it is.
abbrev pub given : Service → Text → Text → Service
given svc ip ipv6 = record svc {
  annotations = insert class_annotation load_balancer_class_helios svc.annotations;
  ingress = ip ∷ (if text_eq ipv6 [] then [] else ipv6 ∷ []);
}

insert-insert : (k v : Text) (m : Dict Text) → insert k v (insert k v m) ≡ insert k v m
unfolding insert
insert-insert k v [] = rw (text_eq_refl k) refl
insert-insert k v ((j, w) ∷ m) = elim (Bool-cases (text_eq j k)) [
  | inl q ↦ rw (insert, q, text_eq_refl k) refl
  | inr q ↦
      subst
        (λ b.
          insert k v (if b then (k, v) ∷ m else (j, w) ∷ insert k v m)
          ≡ (if b then (k, v) ∷ m else (j, w) ∷ insert k v m))
        (sym q)
        (subst
          (λ b.
            (if b then (k, v) ∷ insert k v m else (j, w) ∷ insert k v (insert k v m))
            ≡ (j, w) ∷ insert k v m)
          (sym q) (ap (λ x. (j, w) ∷ x) (insert-insert k v m)))
]

pub given-given :
    (svc : Service) (ip ipv6 : Text) → given (given svc ip ipv6) ip ipv6 ≡ given svc ip ipv6
given-given svc ip ipv6 =
    ap (λ (a : Dict Text). record (given svc ip ipv6) { annotations = a })
      (insert-insert class_annotation load_balancer_class_helios svc.annotations)
