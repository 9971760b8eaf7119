-- ===== src/Tests/Command.antt =====
-- Instances of the theorems about cmd/main.go and the process that it starts.
use helios_lb.Prelude.{
  arith, ℕ, ◌+◌, ◌≤◌, ◌≡◌, refl, ap, sym, inl, true, false, List, [], ◌∷◌, ◌++◌, none, some,
  if◌then◌else◌, Text, codes, ok, err, ok-injective,
}
use helios_lb.Network.Allocator.History.{NamesPool}
use helios_lb.Api.Types.{HeliosConfig}
use helios_lb.Controller.Types.{Client}
use helios_lb.Controller.Reconciler.Laws.{ReturnsSent, KeepsMark}
use helios_lb.Controller.Reconciler.Labels.{Labelled}
use helios_lb.Controller.Reconciler.Handed.{handed}
use helios_lb.Controller.Reconciler.Serving.{Pools}
use helios_lb.Command.{
  Flags, default_flags, TlsConfig, TlsOption, Platform, main, manager_options, gets_config,
  creates_manager, sets_up_controller, sets_up_webhook,
}
use helios_lb.Command.Started.{Follows, plan, program-Follows}
use helios_lb.Command.Hardened.{AppliesInOrder, SpeaksAsAsked, manager_options-Hardened}
use helios_lb.Command.Process.{
  Round, operate, drops, first_state, handed_out_once, process-Labelled,
}
use helios_lb.Tests.Network.{range, first, last, range_parses, range-IsPool}
use helios_lb.Prelude.{inr, trim_space, text_eq}
use helios_lb.Net.Addr.{v4_in_v6_prefix}
use helios_lb.Net.Parse.{parse_ip}
use helios_lb.Network.Value.{value}
use helios_lb.Api.Webhook.{validate_create}
use helios_lb.Controller.Manager.{check_ip_conflicts}
use helios_lb.Command.{HeliosConfigValidator, lister}
use helios_lb.Command.Admitted.{KeepsToItself, admitted_without_conflicts}
use helios_lb.Network.Manager.{new_network_manager}
use helios_lb.Network.Allocator.{is_used}
use helios_lb.Controller.Manager.{mark_others, assign_ip_to_service}
use helios_lb.Controller.Manager.Gives.{HasRoom}
use helios_lb.Controller.Reconciler.{ip_allocated}
use helios_lb.Controller.Reconciler.Main.{reconcile_config}
use helios_lb.Controller.Reconciler.Serves.{Continues, Ready, reconcile_config_serves}
use helios_lb.Command.{init, program}
use helios_lb.Prelude.{◌⊎◌}
use helios_lb.Tests.Controller.{web, other, one_parses}
use helios_lb.Tests.Reconciler.{
  initial, live, machinery, cluster, cause, sent_back, cluster-ReturnsSent, machinery-Finalizers,
}

abbrev pooled : HeliosConfig
pooled = record live { spec = record (live.spec) { ip_range = range } }

abbrev pooled_cluster : Client ℕ Text
pooled_cluster = record cluster {
  get_config = λ w namespace name. ok pooled;
  list_configs = λ w. ok (pooled ∷ []);
}

-- A platform whose webhook cannot be set up; the state of a manager is a number.
abbrev platform : Platform ℕ Text Text ℕ ℕ ℕ Text
platform = record {
  new_scheme = [];
  add_client_go = λ s. ok (codes "core" ++ s);
  add_kinds = λ b s. ok (s ++ b.builder_version.group);
  get_config = ok 0;
  with_authentication_and_authorization = 1;
  new_manager = λ c o. ok 0;
  get_client = λ m. pooled_cluster;
  get_scheme = λ m. [];
  complete_controller = λ m c. ok (m + 1);
  complete_webhook = λ m kind v. err (codes "no certificate");
  add_healthz_check = λ m name. ok (m + 1);
  add_readyz_check = λ m name. ok (m + 1);
  start = λ m. ok m;
}

abbrev with_webhook : Flags
with_webhook = record default_flags { enable_webhook = true }

started_example :
    ((e : Text) × (init platform ≡ err e)
      × (program platform with_webhook ≡ record { code = 2; calls = [] }))
    ⊎ ((scheme : Text) × (init platform ≡ ok scheme)
        × Follows (plan with_webhook) (program platform with_webhook))
started_example = program-Follows platform with_webhook

-- Nothing is called after the webhook that fails.
webhook_fails : main platform [] with_webhook ≡ record {
  code = 1;
  calls =
      (gets_config, true)
      ∷ (creates_manager, true)
      ∷ (sets_up_controller, true)
      ∷ (sets_up_webhook, false)
      ∷ [];
}
unfolding main
webhook_fails = refl

without_webhook : (main platform [] default_flags).code ≡ 0
unfolding main
without_webhook = refl

apply_all : TlsConfig → List TlsOption → TlsConfig
apply_all c [] = c
apply_all c (f ∷ fs) = apply_all (f c) fs

apply_all_in_order : (c : TlsConfig) → AppliesInOrder (apply_all c)
unfolding apply_all
apply_all_in_order c [] f = refl
apply_all_in_order c (g ∷ gs) f = apply_all_in_order (g c) gs f

abbrev own_config : TlsConfig
own_config = record { next_protos = codes "h2" ∷ [] }

hardened_example :
    let o = manager_options {S = Text} {F = ℕ} 1 [] default_flags in
    SpeaksAsAsked default_flags (apply_all own_config) o.webhook.webhook_tls_opts
    × SpeaksAsAsked default_flags (apply_all own_config) o.metrics.metrics_tls_opts
    × (o.metrics.filter_provider ≡ (if o.metrics.secure_serving then some 1 else none))
hardened_example =
    manager_options-Hardened 1 [] default_flags (apply_all own_config)
      (apply_all_in_order own_config)

pooled-ReturnsSent : ReturnsSent pooled_cluster
pooled-ReturnsSent = record {
  status_update = cluster-ReturnsSent.status_update;
  update = cluster-ReturnsSent.update;
}

pooled-KeepsMark : KeepsMark pooled_cluster machinery
pooled-KeepsMark = record {
  update = λ w c d e. ap (λ x. x.deleting) (sym (sent_back w c d e));
  status_update = λ w c d e. ap (λ x. x.deleting) (sym (ok-injective c d e));
  added = λ c f. refl;
}

range-NamesPool : NamesPool range
range-NamesPool = (first, last, range_parses, range-IsPool)

pooled-Pools : Pools pooled
pooled-Pools = (range-NamesPool, inl refl)

abbrev round : ℕ → Round ℕ
round w = record { duration = 7; namespace = codes "a"; name = codes "one"; world = w }

abbrev address : Text
address = codes "10.0.0.254"

once_example :
    handed address
      (operate pooled_cluster machinery cause
        (round 0 ∷ round 1 ∷ [])
        (first_state platform 0 machinery cause 0)).events
    ≤ 1 + drops pooled_cluster machinery cause address (round 0 ∷ round 1 ∷ [])
once_example =
    handed_out_once platform 0 machinery cause pooled-ReturnsSent machinery-Finalizers
      pooled-KeepsMark address (round 0 ∷ round 1 ∷ []) 0 (pooled-Pools, (pooled-Pools, tt))

-- The first round gives the address to the service, the second one the next address.
given_once :
    handed address
      (operate pooled_cluster machinery cause
        (round 0 ∷ round 1 ∷ [])
        (first_state platform 0 machinery cause 0)).events
    ≡ 1
unfolding handed operate first_state helios_lb.Controller.Reconciler.Main.reconcile
    helios_lb.Controller.Manager.is_in helios_lb.Prelude.text_eq
    helios_lb.Controller.Manager.check_ip_conflicts helios_lb.Controller.Manager.conflicts_from
    helios_lb.Controller.Manager.same_config helios_lb.Controller.Reconciler.serve
    helios_lb.Controller.Filter.filter_eligible_services helios_lb.Controller.Filter.eligible
    helios_lb.Controller.Filter.request_fits helios_lb.Controller.Manager.within_quota
    helios_lb.Controller.Manager.allocate_and_assign helios_lb.Controller.Manager.with_ipv4
    helios_lb.Controller.Manager.allocate helios_lb.Controller.Manager.split_requested_ip
    helios_lb.Net.Parse.parse_ip helios_lb.Prelude.trim_space
    helios_lb.Network.Manager.manager_allocate helios_lb.Network.Allocator.allocate_ip
    helios_lb.Network.Parse.parse_ip_range helios_lb.Prelude.contains
    helios_lb.Network.Parse.normalize_ip helios_lb.Net.Addr.to4
    helios_lb.Network.Allocator.allocate_between helios_lb.Net.Addr.equal
    helios_lb.Net.Print.ip_string helios_lb.Controller.Manager.mark_others
    helios_lb.Controller.Manager.assigned helios_lb.Controller.Manager.assign_ip_to_service
    helios_lb.Prelude.split helios_lb.Command.new_reconciler helios_lb.Net.Addr.compare_bytes
    helios_lb.Network.Allocator.is_used helios_lb.Prelude.lookup
    helios_lb.Network.Allocator.mark_used helios_lb.Prelude.insert
    helios_lb.Network.Parse.increment_ip helios_lb.Controller.Reconciler.allocation_event
given_once = refl

labels_example : Labelled (
    operate pooled_cluster machinery cause
      (round 0 ∷ [])
      (first_state platform 0 machinery cause 0))
labels_example = process-Labelled platform 0 machinery cause (round 0 ∷ []) 0

-- The clients of the webhook and of the controller list another config, which has given out its address.
abbrev validator : HeliosConfigValidator ℕ Text
validator = record { client = record pooled_cluster { list_configs = λ w. ok (other ∷ []) } }

accepted : validate_create (lister validator 0) pooled ≡ none
unfolding validate_create lister text_eq trim_space parse_ip helios_lb.Api.Webhook.validate_spec
    helios_lb.Api.Webhook.validate_ip_range helios_lb.Api.Webhook.validate_dashed
    helios_lb.Api.Webhook.validate_ends helios_lb.Api.Webhook.validate_ports
    helios_lb.Api.Webhook.ports_from helios_lb.Api.Webhook.validate_weights
    helios_lb.Api.Webhook.validate_health_check helios_lb.Api.Webhook.check_ip_range_overlap
    helios_lb.Api.Webhook.overlap_for_range helios_lb.Api.Webhook.overlap_from
    helios_lb.Api.Webhook.overlaps_existing helios_lb.Api.Webhook.ranges_overlap
    helios_lb.Prelude.contains helios_lb.Prelude.split helios_lb.Network.Parse.normalize_ip
    helios_lb.Net.Addr.to4 helios_lb.Network.Parse.compare_ips helios_lb.Net.Addr.compare_bytes
    helios_lb.Network.Parse.parse_ip_range
accepted = refl

other-KeepsToItself : KeepsToItself pooled other
unfolding text_eq parse_ip trim_space value helios_lb.Network.Parse.normalize_ip
    helios_lb.Net.Addr.to4
other-KeepsToItself = (
  refl,
  (
    first,
    last,
    10 ∷ 0 ∷ 0 ∷ 5 ∷ [],
    10 ∷ 0 ∷ 0 ∷ 5 ∷ [],
    range_parses,
    one_parses,
    record { same_length = (refl, refl, refl); normal = (refl, refl); normal' = (refl, refl) },
    refl,
    (
      (
        v4_in_v6_prefix ++ 10 ∷ 0 ∷ 0 ∷ 5 ∷ [],
        refl,
        record {
          bytes = (omega arith, (omega arith, (omega arith, (omega arith, tt))));
          family = refl;
          above = omega arith;
          below = omega arith;
        },
      ),
      tt,
    ),
  ),
  inl refl,
)

admitted_example : check_ip_conflicts validator.client 0 pooled ≡ ok []
admitted_example =
    admitted_without_conflicts validator 0 pooled (other ∷ []) refl accepted
      (inr other-KeepsToItself, tt)

pooled-Ready : Ready pooled_cluster machinery cause pooled initial web
unfolding text_eq helios_lb.Controller.Manager.is_in
    helios_lb.Controller.Filter.filter_eligible_services helios_lb.Controller.Filter.eligible
    helios_lb.Controller.Filter.request_fits check_ip_conflicts
    helios_lb.Controller.Manager.conflicts_from helios_lb.Controller.Manager.same_config
    helios_lb.Controller.Manager.within_quota
pooled-Ready = record {
  finalizer = refl;
  live = refl;
  services = web ∷ [];
  listed = refl;
  more = [];
  first = refl;
  no_conflict = refl;
  in_quota = refl;
}

pooled-HasRoom :
    HasRoom (mark_others new_network_manager pooled (pooled ∷ [])).ip_allocator pooled.spec.ip_range
unfolding value mark_others is_used new_network_manager helios_lb.Network.Allocator.new_ip_allocator
    helios_lb.Prelude.lookup text_eq
pooled-HasRoom = (
  first,
  last,
  first,
  range_parses,
  range-IsPool,
  record {
    bytes = range-IsPool.start_bytes;
    family = refl;
    above = omega arith;
    below = omega arith;
  },
  omega arith,
  refl,
)

web_assigned :
    (ip : Text) → (w' : ℕ) × (assign_ip_to_service pooled_cluster web ip [] 0 ≡ (ok tt, w'))
unfolding assign_ip_to_service
web_assigned ip = (2, refl)

serves_example :
    (s : Text) × (is_used (mark_others new_network_manager pooled (pooled ∷ [])).ip_allocator s
      ≡ false)
    × Continues pooled_cluster machinery cause
        (ip_allocated s (codes "a") (codes "web") ∷ [])
        (reconcile_config pooled_cluster machinery cause pooled initial)
unfolding text_eq
serves_example =
    reconcile_config_serves pooled_cluster machinery cause pooled initial web (pooled ∷ [])
      pooled-Ready refl refl refl pooled-HasRoom web_assigned
