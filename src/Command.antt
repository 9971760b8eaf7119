-- ===== src/Command.antt =====
-- cmd/main.go: the flags, the options of the manager, the objects that are handed to it, and the calls
-- up to its start, each of which can fail. What the calls do is `Platform`.
pub mod Hardened
pub mod Started
pub mod Process
pub mod Admitted
use helios_lb.Prelude.{
  ◌*◌, Bool, true, false, List, [], ◌∷◌, ◌++◌, ℕ, Option, none, some, if◌then◌else◌, Text, codes,
  Result, ok, err,
}
use helios_lb.Prelude.Int.{pos}
use helios_lb.Network.Manager.{NetworkManager, new_network_manager}
use helios_lb.LoadBalancer.Types.{round_robin}
use helios_lb.LoadBalancer.Balancer.{BalancerConfig, LoadBalancer, new_load_balancer, second}
use helios_lb.Api.Types.{HeliosConfig}
use helios_lb.Api.Scheme.{ObjectKind, helios_config, SchemeBuilder, registered_builder}
use helios_lb.Api.Webhook.{Lister, list_failed, listed}
use helios_lb.Controller.Types.{Service, Client}
use helios_lb.Controller.Watch.{watched, find_load_balancer_services}

pub record Flags : Type 0 where
  pub metrics_addr : Text
  pub probe_addr : Text
  pub enable_leader_election : Bool
  pub secure_metrics : Bool
  pub enable_http2 : Bool
  pub enable_webhook : Bool

-- The flags that are not given.
abbrev pub default_flags : Flags
default_flags = record {
  metrics_addr = codes "0";
  probe_addr = codes ":9082";
  enable_leader_election = false;
  secure_metrics = true;
  enable_http2 = false;
  enable_webhook = false;
}

-- What an option changes of `tls.Config`.
pub record TlsConfig : Type 0 where
  pub next_protos : List Text

abbrev pub TlsOption : Type 0
TlsOption = TlsConfig → TlsConfig

unfoldable pub disable_http2 : TlsOption
disable_http2 c = record c { next_protos = codes "http/1.1" ∷ [] }

unfoldable pub tls_opts : Flags → List TlsOption
unfolding disable_http2
tls_opts flags = if flags.enable_http2 then [] else [] ++ disable_http2 ∷ []

pub record WebhookOptions : Type 0 where
  pub webhook_tls_opts : List TlsOption

unfoldable pub webhook_server : Flags → WebhookOptions
unfolding tls_opts
webhook_server flags = record { webhook_tls_opts = tls_opts flags }

-- `F` is a provider of a filter.
pub record MetricsOptions (F : Type 0) : Type 0 where
  pub bind_address : Text
  pub secure_serving : Bool
  pub metrics_tls_opts : List TlsOption
  pub filter_provider : Option F

unfoldable pub metrics_server_options : {F : Type 0} → F → Flags → MetricsOptions F
unfolding tls_opts
metrics_server_options with_authentication_and_authorization flags = record {
  bind_address = flags.metrics_addr;
  secure_serving = flags.secure_metrics;
  metrics_tls_opts = tls_opts flags;
  filter_provider =
      if flags.secure_metrics then some with_authentication_and_authorization else none;
}

-- `S` is a scheme.
pub record ManagerOptions (S F : Type 0) : Type 0 where
  pub scheme : S
  pub metrics : MetricsOptions F
  pub webhook : WebhookOptions
  pub health_probe_bind_address : Text
  pub leader_election : Bool
  pub leader_election_id : Text
  pub leader_election_release_on_cancel : Bool

unfoldable pub manager_options : {S F : Type 0} → F → S → Flags → ManagerOptions S F
unfolding metrics_server_options webhook_server
manager_options with_authentication_and_authorization scheme flags = record {
  scheme = scheme;
  metrics = metrics_server_options with_authentication_and_authorization flags;
  webhook = webhook_server flags;
  health_probe_bind_address = flags.probe_addr;
  leader_election = flags.enable_leader_election;
  leader_election_id = codes "7b619bed.helios.dev";
  leader_election_release_on_cancel = true;
}

abbrev pub balancer_config : BalancerConfig
balancer_config = record {
  type = round_robin;
  health_check = true;
  check_interval = pos (second * 5);
  metrics_enabled = true;
  weights = [];
  health_check_opts = record { timeout = pos 0; protocol = []; http_path = [] };
}

pub record IpManager (W E : Type 0) : Type 0 where
  pub client : Client W E
  pub network_mgr : NetworkManager

-- The network manager is the one of `ip_mgr`, and the client too.
pub record HeliosConfigReconciler (W E S : Type 0) : Type 0 where
  pub client : Client W E
  pub scheme : S
  pub network_mgr : NetworkManager
  pub balancer : LoadBalancer
  pub ip_mgr : IpManager W E
  pub recorder : Text

-- What a controller is built from: the kind that it is for, the watch on services, the reconciler.
pub record ControllerSpec (W E S : Type 0) : Type 0 where
  pub for_kind : ObjectKind
  pub predicate : Service → Bool
  pub requests : W → Service → List (Text × Text)
  pub reconciler : HeliosConfigReconciler W E S

pub record HeliosConfigValidator (W E : Type 0) : Type 0 where
  pub client : Client W E

-- What the client of the validator lists.
unfoldable pub lister : {W E : Type 0} → HeliosConfigValidator W E → W → Lister
lister v w = elim (v.client.list_configs w) [ err e ↦ list_failed | ok configs ↦ listed configs ]

-- Kubernetes' libraries: `C` is the configuration of a cluster, `M` the manager with all that has been
-- set up on it, `X` an error.
pub record Platform (W E S F C M X : Type 0) : Type 0 where
  pub new_scheme : S
  pub add_client_go : S → Result X S
  pub add_kinds : SchemeBuilder → S → Result X S
  -- `GetConfigOrDie`, which ends the program when there is no configuration
  pub get_config : Result X C
  pub with_authentication_and_authorization : F
  pub new_manager : C → ManagerOptions S F → Result X M
  pub get_client : M → Client W E
  pub get_scheme : M → S
  pub complete_controller : M → ControllerSpec W E S → Result X M
  pub complete_webhook : M → ObjectKind → HeliosConfigValidator W E → Result X M
  pub add_healthz_check : M → Text → Result X M
  pub add_readyz_check : M → Text → Result X M
  -- it returns when the manager is stopped
  pub start : M → Result X M

pub data SetupCall : Type 0 where
  gets_config creates_manager sets_up_controller sets_up_webhook : SetupCall
  adds_healthz_check adds_readyz_check starts_manager : SetupCall

-- The exit code, and the calls with whether they succeeded.
pub record Run : Type 0 where
  pub code : ℕ
  pub calls : List (SetupCall × Bool)

-- A call whose failure ends the program.
unfoldable pub attempt : {X A : Type 0} → SetupCall → Result X A → (A → Run) → Run
attempt c (err e) next = record { code = 1; calls = (c, false) ∷ [] }
attempt c (ok a) next = let r = next a in record { code = r.code; calls = (c, true) ∷ r.calls }

module _ {W E S F C M X : Type 0} (platform : Platform W E S F C M X) where
  -- The scheme behind `init`, which panics when a registration fails.
  unfoldable pub init : Result X S
  init = elim (platform.add_client_go platform.new_scheme) [
    | err e ↦ err e
    | ok scheme ↦ platform.add_kinds registered_builder scheme
  ]

  unfoldable pub setup_with_manager : HeliosConfigReconciler W E S → M → Result X M
  unfolding watched find_load_balancer_services
  setup_with_manager r mgr = platform.complete_controller mgr (record {
    for_kind = helios_config;
    predicate = watched;
    requests = find_load_balancer_services r.client;
    reconciler = r;
  })

  unfoldable pub setup_webhook_with_manager : M → Result X M
  setup_webhook_with_manager mgr =
      platform.complete_webhook mgr helios_config (record { client = platform.get_client mgr })

  unfoldable pub ip_manager : M → NetworkManager → IpManager W E
  ip_manager mgr network_mgr = record {
    client = platform.get_client mgr;
    network_mgr = network_mgr;
  }

  unfoldable pub new_reconciler : M → HeliosConfigReconciler W E S
  unfolding ip_manager new_network_manager new_load_balancer
  new_reconciler mgr =
      let network_mgr = new_network_manager in
      record {
        client = platform.get_client mgr;
        scheme = platform.get_scheme mgr;
        network_mgr = network_mgr;
        balancer = new_load_balancer balancer_config;
        ip_mgr = ip_manager mgr network_mgr;
        recorder = codes "helios-lb-controller";
      }

  -- Behind the set-up of the controller and of the webhook.
  unfoldable pub run_manager : M → Run
  unfolding attempt
  run_manager mgr =
      attempt adds_healthz_check (platform.add_healthz_check mgr (codes "healthz")) (λ m.
        attempt adds_readyz_check (platform.add_readyz_check m (codes "readyz")) (λ m'.
          attempt starts_manager (platform.start m') (λ m''. record { code = 0; calls = [] })))

  -- Behind the creation of the manager.
  unfoldable pub set_up : Flags → M → Run
  unfolding attempt run_manager setup_with_manager setup_webhook_with_manager new_reconciler
  set_up flags mgr = attempt sets_up_controller (setup_with_manager (new_reconciler mgr) mgr) (λ m.
      if flags.enable_webhook
      then attempt sets_up_webhook (setup_webhook_with_manager m) run_manager
      else run_manager m)

  unfoldable pub main : S → Flags → Run
  unfolding attempt set_up manager_options
  main scheme flags = attempt gets_config platform.get_config (λ config.
      attempt creates_manager
        (platform.new_manager config
          (manager_options platform.with_authentication_and_authorization scheme flags))
        (set_up flags))

  -- The process: a panic of `init` ends it with the code 2.
  unfoldable pub program : Flags → Run
  unfolding init main
  program flags = elim init [
    | err e ↦ record { code = 2; calls = [] }
    | ok scheme ↦ main scheme flags
  ]
