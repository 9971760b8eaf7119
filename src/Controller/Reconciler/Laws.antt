-- ===== src/Controller/Reconciler/Laws.antt =====
-- What internal/controller/heliosconfig_controller.go relies on of the Kubernetes API: an update of
-- a config that was read returns the object with the spec and the status that were sent, since the
-- server refuses an update of a stale object; the finalizer helpers change the finalizers alone.
use helios_lb.Prelude.{◌≡◌, true, false, Text, ok, err}
use helios_lb.Api.Types.{HeliosConfig}
use helios_lb.Controller.Types.{Client, Machinery}

abbrev pub SameConfig : HeliosConfig → HeliosConfig → Type 0
SameConfig d c = (d.spec ≡ c.spec) × (d.status ≡ c.status)

pub record ReturnsSent {W E : Type 0} (client : Client W E) : Type 0 where
  pub status_update :
      (w : W) (c d : HeliosConfig) → (client.update_config_status w c).0 ≡ ok d → SameConfig d c
  pub update : (w : W) (c d : HeliosConfig) → (client.update_config w c).0 ≡ ok d → SameConfig d c

pub record Finalizers (k : Machinery) : Type 0 where
  pub add_keeps : (c : HeliosConfig) (f : Text) → SameConfig (k.add_finalizer c f) c
  pub remove_keeps : (c : HeliosConfig) (f : Text) → SameConfig (k.remove_finalizer c f) c
  pub removed :
      (c : HeliosConfig) (f : Text) → k.contains_finalizer (k.remove_finalizer c f) f ≡ false

-- The server keeps the deletion mark and the finalizers that it is sent, and refuses an update that
-- adds a finalizer to a config that is being deleted.
pub record Deletions {W E : Type 0} (client : Client W E) (k : Machinery) (f : Text) : Type 0 where
  pub mark :
      (w : W) (c d : HeliosConfig) → (client.update_config w c).0 ≡ ok d → d.deleting ≡ c.deleting
  pub finalizers :
      (w : W) (c d : HeliosConfig)
      → (client.update_config w c).0 ≡ ok d
      → k.contains_finalizer d f ≡ k.contains_finalizer c f
  pub removed_mark : (c : HeliosConfig) → (k.remove_finalizer c f).deleting ≡ c.deleting
  pub refuses :
      (w : W) (c : HeliosConfig)
      → c.deleting ≡ true
      → k.contains_finalizer c f ≡ false
      → (e : E) × ((client.update_config w (k.add_finalizer c f)).0 ≡ err e)

-- The finalizer helper and the server keep the deletion mark that they are sent.
pub record KeepsMark {W E : Type 0} (client : Client W E) (k : Machinery) : Type 0 where
  pub update :
      (w : W) (c d : HeliosConfig) → (client.update_config w c).0 ≡ ok d → d.deleting ≡ c.deleting
  pub status_update :
      (w : W) (c d : HeliosConfig)
      → (client.update_config_status w c).0 ≡ ok d
      → d.deleting ≡ c.deleting
  pub added : (c : HeliosConfig) (f : Text) → (k.add_finalizer c f).deleting ≡ c.deleting
