-- ===== src/Controller/Reconciler/Failures.antt =====
-- The errors that `Reconcile` returns (internal/controller/heliosconfig_controller.go).
use helios_lb.Prelude.{◌≡◌, Text, Result, err}
use helios_lb.Api.Types.{HeliosConfig}
use helios_lb.Controller.Types.{Client, Machinery}
use helios_lb.Controller.Manager.{AssignError}
use helios_lb.Controller.Reconciler.Calls.{Settled, CallFailed}
use helios_lb.Controller.Reconciler.{State, Reconciled}

module _ {W E : Type 0} (client : Client W E) (k : Machinery) (cause : AssignError E → Text) (w : W)
    (namespace name : Text) where
  -- An error is that of a call.
  abbrev Told : {A : Type 0} → Result E A → Type 0
  Told r = (e : E) → r ≡ err e → CallFailed client w namespace name e

  abbrev Honest : Reconciled client k cause → Type 0
  Honest (r, hc, st) = Told r

  abbrev Goes : (HeliosConfig → State W → Reconciled client k cause) → Type 0
  Goes next = (d : HeliosConfig) (s : State W) → Honest (next d s)

  -- From the settled state.
  abbrev Starts : (HeliosConfig → State W → Reconciled client k cause) → Type 0
  Starts next = (d : HeliosConfig) (s : State W) → Settled client w s.world → Honest (next d s)
