-- ===== src/Command/Process.antt =====
-- A process of cmd/main.go from its start on: the reconciliations that its manager runs, one behind the
-- other, where the cluster may change in any way between them.
use helios_lb.Prelude.{ℕ, ◌+◌, ◌≤◌, List, [], ◌∷◌, All, arith, Text, Result}
use helios_lb.Network.Manager.{NetworkManager}
use helios_lb.Api.Types.{HeliosConfig}
use helios_lb.Controller.Types.{Client, Machinery}
use helios_lb.Controller.Manager.{AssignError}
use helios_lb.Controller.Reconciler.{State}
use helios_lb.Controller.Reconciler.Main.{reconcile}
use helios_lb.Controller.Reconciler.Laws.{ReturnsSent, Finalizers, KeepsMark}
use helios_lb.Controller.Reconciler.Labels.{Labelled, reconcile-Labelled}
use helios_lb.Controller.Reconciler.Handed.{handed, spare}
use helios_lb.Controller.Reconciler.Given.{ReadsPools, read_drops, reconcile-Bounded}
use helios_lb.Command.{Platform, HeliosConfigReconciler, new_reconciler}

-- A request for a config, in a state of the cluster.
pub record Round (W : Type 0) : Type 0 where
  pub duration : ℕ
  pub namespace : Text
  pub name : Text
  pub world : W

-- A process that has done nothing yet; its state is that of the reconciler's network manager.
unfoldable pub begin : {W E S : Type 0} → HeliosConfigReconciler W E S → W → State W
begin r w = record { manager = r.network_mgr; world = w; events = []; samples = [] }

module _ {W E : Type 0} (client : Client W E) (k : Machinery) (cause : AssignError E → Text) where
  unfoldable pub operate : List (Round W) → State W → State W
  operate [] st = st
  operate (r ∷ rs) st =
      operate rs
        (reconcile client k cause r.duration r.namespace r.name (record st { world = r.world })).1

  -- What a round reads.
  abbrev pub reads : Round W → Result E HeliosConfig
  reads r = client.get_config r.world r.namespace r.name

  -- The rounds that read a config that is being deleted and has recorded the address.
  unfoldable pub drops : Text → List (Round W) → ℕ
  unfolding read_drops
  drops t [] = 0
  drops t (r ∷ rs) = read_drops t (reads r) + drops t rs

  operate-Bounded :
      ReturnsSent client
      → Finalizers k
      → KeepsMark client k
      → (n : ℕ) (t : Text) (rounds : List (Round W)) (st : State W)
      → All (λ r. ReadsPools (reads r)) rounds
      → handed t st.events + spare t st.manager + drops t rounds ≤ n
      → handed t (operate rounds st).events ≤ n
  unfolding operate drops
  operate-Bounded sent fins marks n t [] st p o = omega (arith, o)
  operate-Bounded sent fins marks n t (r ∷ rs) st (p, ps) o =
      let now : State W = record st { world = r.world } in
      let m = handed t st.events + spare t st.manager + read_drops t (reads r) in
      let after = (reconcile client k cause r.duration r.namespace r.name now).1 in
      let b =
        reconcile-Bounded client k cause m t sent fins marks r.duration r.namespace r.name now p
          (omega arith) in
      operate-Bounded sent fins marks n t rs after ps (omega (arith, b, o))

  operate-Labelled :
      (rounds : List (Round W)) (st : State W) → Labelled st → Labelled (operate rounds st)
  unfolding operate
  operate-Labelled [] st l = l
  operate-Labelled (r ∷ rs) st l =
      let now : State W = record st { world = r.world } in
      operate-Labelled rs (reconcile client k cause r.duration r.namespace r.name now).1
        (reconcile-Labelled client k cause r.duration r.namespace r.name now l)

one_spare : (t : Text) (nm : NetworkManager) → spare t nm ≤ 1
unfolding spare
one_spare t nm = ground arith

module _ {W E S F C M X : Type 0} (platform : Platform W E S F C M X) (mgr : M) (k : Machinery)
    (cause : AssignError E → Text) where
  unfoldable pub first_state : W → State W
  unfolding begin
  first_state w = begin (new_reconciler platform mgr) w

  -- However often and in whatever state of the cluster a process reconciles, its events say that an
  -- address was given to a service at most once more than it read a config that was being deleted
  -- with the address in its status, when the ranges of every config that is read are of several
  -- addresses of one family and end before the last address of the family, and the updates and the
  -- helpers for the finalizer leave the spec, the status and the deletion mark as they were sent.
  pub handed_out_once :
      ReturnsSent (platform.get_client mgr)
      → Finalizers k
      → KeepsMark (platform.get_client mgr) k
      → (t : Text) (rounds : List (Round W)) (w : W)
      → All (λ r. ReadsPools (reads (platform.get_client mgr) k cause r)) rounds
      → handed t (operate (platform.get_client mgr) k cause rounds (first_state w)).events
        ≤ 1 + drops (platform.get_client mgr) k cause t rounds
  unfolding handed first_state
  handed_out_once sent fins marks t rounds w p =
      let s = one_spare t (first_state w).manager in
      operate-Bounded (platform.get_client mgr) k cause sent fins marks _ t rounds (first_state w) p
        (omega (arith, s))

  -- However often and in whatever state of the cluster a process reconciles, each call that it makes on
  -- a metric is one that this kind of metric has, with one value for each of the metric's labels.
  pub process-Labelled :
      (rounds : List (Round W)) (w : W)
      → Labelled (operate (platform.get_client mgr) k cause rounds (first_state w))
  unfolding first_state
  process-Labelled rounds w =
      operate-Labelled (platform.get_client mgr) k cause rounds (first_state w) tt
