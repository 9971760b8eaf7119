-- ===== src/Controller/Reconciler/Calls.antt =====
-- The calls of the client that can fail a reconciliation
-- (internal/controller/heliosconfig_controller.go).
use helios_lb.Network.Manager.{NetworkManager}
use helios_lb.Prelude.{◌≡◌, false, Text, ok, err}
use helios_lb.Api.Types.{HeliosConfig}
use helios_lb.Controller.Types.{Service, Client}
use helios_lb.Controller.Manager.{allocate_and_assign, release_all}

-- The state in which a reconciliation that is not over lists the services and checks the conflicts: as
-- it was read, or behind the update that adds the finalizer and the one of the initial status.
pub data Settled {W E : Type 0} (client : Client W E) (w : W) : W → Type 0 where
  as_read : Settled client w w
  initialised :
      (c d : HeliosConfig)
      → Settled client w (client.update_config_status (client.update_config w c).1 d).1

-- A call that fails with this error in the reconciliation of a config in a state: the read of the
-- config, with an error other than the one that it is not there; the update that adds the finalizer or
-- the one of the initial status; the list of the services or of the configs in the settled state; the
-- update of the status behind a successful allocation; or the update that removes the finalizer, behind
-- the release of all addresses.
pub data CallFailed {W E : Type 0} (client : Client W E) (w : W) (namespace name : Text) (e : E)
    : Type 0 where
  get_failed :
      client.get_config w namespace name ≡ err e
      → client.is_not_found e ≡ false
      → CallFailed client w namespace name e
  finalizer_failed :
      (c : HeliosConfig)
      → (client.update_config w c).0 ≡ err e
      → CallFailed client w namespace name e
  initial_failed :
      (c d : HeliosConfig)
      → (client.update_config_status (client.update_config w c).1 d).0 ≡ err e
      → CallFailed client w namespace name e
  services_failed :
      (v : W)
      → Settled client w v
      → client.list_services v ≡ err e
      → CallFailed client w namespace name e
  conflicts_failed :
      (v : W)
      → Settled client w v
      → client.list_configs v ≡ err e
      → CallFailed client w namespace name e
  status_failed :
      (nm nm' : NetworkManager) (v v' : W) (hc d : HeliosConfig) (svc : Service) (ip ipv6 : Text)
      → allocate_and_assign client nm v hc svc ≡ (ok (ip, ipv6), nm', v')
      → (client.update_config_status v' d).0 ≡ err e
      → CallFailed client w namespace name e
  cleanup_failed :
      (nm : NetworkManager) (v : W) (hc c : HeliosConfig)
      → Settled client w v
      → (client.update_config (release_all client nm v hc).1 c).0 ≡ err e
      → CallFailed client w namespace name e
