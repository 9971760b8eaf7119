-- ===== src/Tests/Reconciler.antt =====
-- Instances of the theorems about the reconciler of internal/controller.
use helios_lb.Prelude.{
  ◌||◌, ◌&&◌, if◌then◌else◌, if-false, if-true, ◌⊎◌, inl, inr, ℕ, ◌+◌, ◌≤◌, ◌<◌, ◌≡◌, refl, sym, ap,
  ◌∙◌, subst, Bool, Bool-cases, true, false, List, [], ◌∷◌, none, some, arith, Text, text_eq,
  text_eq_refl, codes, Dict, Result, ok, err, ok-injective,
}
use helios_lb.Prelude.Int.{pos}
use helios_lb.Controller.Reconciler.Namesakes.{namesake_leaks}
use helios_lb.Network.Allocator.{is_used, mark_used, ip_in_range, ip_allocatable}
use helios_lb.Network.Manager.{new_network_manager, manager_mark_used}
use helios_lb.Api.Types.{HeliosConfig}
use helios_lb.Controller.Types.{Service, Client, Machinery}
use helios_lb.Controller.Filter.{filter_eligible_services}
use helios_lb.Controller.Manager.{release_all, AssignError, is_in, check_ip_conflicts}
use helios_lb.Controller.Manager.Deletion.{is_value}
use helios_lb.Controller.Reconciler.{State, record_allocation, config_finalizer}
use helios_lb.Controller.Reconciler.Main.{reconcile_config}
use helios_lb.Controller.Reconciler.Laws.{ReturnsSent, Finalizers, Deletions}
use helios_lb.Controller.Reconciler.Quota.{Keeps, reconcile_config-Capped}
use helios_lb.Controller.Reconciler.Runs.{Ends, Pauses, reconcile_config-Ends}
use helios_lb.Controller.Reconciler.Deletion.{Gone, reconcile_config-Gone, deleted_again_fails}
use helios_lb.Tests.Controller.{web, one, other, one_range}

abbrev pub live : HeliosConfig
live = record one { finalizers = config_finalizer ∷ [] }

abbrev limited : HeliosConfig
limited = record live { spec = record (one.spec) { max_allocations = pos 1 } }

-- A deleted config that has given out an address.
abbrev dying : HeliosConfig
dying = record other { deleting = true; finalizers = config_finalizer ∷ [] }

pub without : Text → List Text → List Text
without f [] = []
without f (g ∷ gs) = if text_eq f g then without f gs else g ∷ without f gs

is_in-without : (f : Text) (gs : List Text) → is_in f (without f gs) ≡ false
unfolding without is_in
is_in-without f [] = refl
is_in-without f (g ∷ gs) = ground (arith, is_in-without f gs)

abbrev pub machinery : Machinery
machinery = record {
  contains_finalizer = λ c f. is_in f c.finalizers;
  add_finalizer = λ c f. record c { finalizers = f ∷ c.finalizers };
  remove_finalizer = λ c f. record c { finalizers = without f c.finalizers };
  set_status_condition = λ cs c. c ∷ cs;
}

-- A deleted config may not be sent with the finalizer.
abbrev pub sent : ℕ → HeliosConfig → Result Text HeliosConfig × ℕ
sent w c = (
  if c.deleting && is_in config_finalizer c.finalizers then err (codes "forbidden") else ok c,
  w + 1,
)

-- A cluster with one service, which counts the updates.
abbrev pub cluster : Client ℕ Text
cluster = record {
  get_config = λ w namespace name. ok live;
  is_not_found = λ e. true;
  update_config = sent;
  update_config_status = λ w c. (ok c, w + 1);
  list_services = λ w. ok (web ∷ []);
  list_configs = λ w. ok (live ∷ []);
  get_service = λ w namespace name. ok web;
  update_status = λ w svc. (ok svc, w + 1);
  update = λ w svc. (ok svc, w + 1);
  retry_on_conflict = λ f w. f w;
}

abbrev pub cause : AssignError Text → Text
cause e = codes "cause"

abbrev pub initial : State ℕ
initial = record { manager = new_network_manager; world = 0; events = []; samples = [] }

pub sent_back : (w : ℕ) (c d : HeliosConfig) → (sent w c).0 ≡ ok d → c ≡ d
sent_back w c d e = elim (Bool-cases (c.deleting && is_in config_finalizer c.finalizers)) [
  | inl q ↦
      let x : err (codes "forbidden") ≡ ok d =
        sym (if-true _ (err (codes "forbidden")) (ok c) q) ∙ e in
      cc
  | inr q ↦ ok-injective c d (sym (if-false _ (err (codes "forbidden")) (ok c) q) ∙ e)
]

pub cluster-ReturnsSent : ReturnsSent cluster
cluster-ReturnsSent = record {
  status_update = λ w c d e.
      let q = ok-injective c d e in (ap (λ x. x.spec) (sym q), ap (λ x. x.status) (sym q));
  update = λ w c d e.
      let q = sent_back w c d e in (ap (λ x. x.spec) (sym q), ap (λ x. x.status) (sym q));
}

pub machinery-Finalizers : Finalizers machinery
machinery-Finalizers = record {
  add_keeps = λ c f. (refl, refl);
  remove_keeps = λ c f. (refl, refl);
  removed = λ c f. is_in-without f c.finalizers;
}

adding_is_refused :
    (w : ℕ) (c : HeliosConfig)
    → c.deleting ≡ true
    → (sent w (record c { finalizers = config_finalizer ∷ c.finalizers })).0
      ≡ err (codes "forbidden")
unfolding is_in
adding_is_refused w c d = ground (arith, text_eq_refl config_finalizer)

cluster-Deletions : Deletions cluster machinery config_finalizer
cluster-Deletions = record {
  mark = λ w c d e. ap (λ x. x.deleting) (sym (sent_back w c d e));
  finalizers = λ w c d e. ap (λ x. is_in config_finalizer x.finalizers) (sym (sent_back w c d e));
  removed_mark = λ c. refl;
  refuses = λ w c d f. (codes "forbidden", adding_is_refused w c d);
}

quota_example :
    Keeps cluster machinery cause 1 (reconcile_config cluster machinery cause limited initial)
quota_example =
    reconcile_config-Capped cluster machinery cause 1 (omega arith) (omega arith)
      cluster-ReturnsSent machinery-Finalizers limited initial (refl, omega arith)

run_example :
    Ends cluster machinery cause
      (filter_eligible_services (web ∷ []) [] one_range [])
      (reconcile_config cluster machinery cause live initial)
    ⊎ Pauses cluster machinery cause new_network_manager
        (check_ip_conflicts cluster 0 live)
        (reconcile_config cluster machinery cause live initial)
unfolding is_in text_eq
run_example =
    reconcile_config-Ends cluster machinery cause live initial (web ∷ []) cluster-ReturnsSent refl
      refl refl refl

deleting_example :
    (is_used
        (reconcile_config cluster machinery cause dying initial).2.manager.ip_allocator
        one_range
      ≡ (if is_value one_range dying.status.allocated_ips
            || is_value one_range dying.status.allocated_ipv6s
          then false
          else is_used new_network_manager.ip_allocator one_range))
    × Gone cluster machinery cause (reconcile_config cluster machinery cause dying initial)
unfolding is_in text_eq
deleting_example =
    reconcile_config-Gone cluster machinery cause dying initial one_range machinery-Finalizers
      cluster-Deletions refl refl

again_example :
    (e : Text) × ((reconcile_config cluster machinery cause
        (reconcile_config cluster machinery cause dying initial).1
        initial).0
      ≡ err e)
unfolding is_in text_eq reconcile_config without
again_example =
    deleted_again_fails cluster machinery cause dying initial initial machinery-Finalizers
      cluster-Deletions refl refl refl

-- The first run gives the service the address of the range, and asks for the next after five seconds.
first_run : (reconcile_config cluster machinery cause live initial).0 ≡ ok 5000000000
unfolding is_in text_eq reconcile_config check_ip_conflicts
    helios_lb.Controller.Manager.conflicts_from helios_lb.Controller.Manager.same_config
    helios_lb.Controller.Reconciler.serve filter_eligible_services
    helios_lb.Controller.Filter.eligible helios_lb.Controller.Filter.request_fits
    helios_lb.Controller.Manager.within_quota helios_lb.Controller.Manager.allocate_and_assign
    helios_lb.Controller.Manager.with_ipv4 helios_lb.Controller.Manager.allocate
    helios_lb.Controller.Manager.split_requested_ip helios_lb.Net.Parse.parse_ip
    helios_lb.Prelude.trim_space helios_lb.Network.Manager.manager_allocate
    helios_lb.Network.Allocator.allocate_ip helios_lb.Network.Parse.parse_ip_range
    helios_lb.Prelude.contains helios_lb.Network.Parse.normalize_ip helios_lb.Net.Addr.to4
    helios_lb.Network.Allocator.allocate_between helios_lb.Net.Addr.equal
    helios_lb.Net.Print.ip_string helios_lb.Controller.Manager.mark_others
    helios_lb.Controller.Manager.assigned helios_lb.Controller.Manager.assign_ip_to_service
first_run = refl

abbrev namesake : Service
namesake = record web { namespace = codes "b" }

leak_example :
    is_used
      (release_all cluster (manager_mark_used new_network_manager one_range) 0 (record live {
        status =
            record_allocation
              (record_allocation live.status web one_range [])
              namesake
              (codes "10.0.0.6")
              [];
      })).0.ip_allocator
      one_range
    ≡ true
unfolding text_eq is_value manager_mark_used is_used mark_used helios_lb.Prelude.insert
    helios_lb.Prelude.lookup new_network_manager helios_lb.Network.Allocator.new_ip_allocator
leak_example =
    namesake_leaks cluster (manager_mark_used new_network_manager one_range) 0 live web namesake
      one_range (codes "10.0.0.6") refl refl refl refl refl

-- A cluster that lists no services.
abbrev unlisted : Client ℕ Text
unlisted = record cluster { list_services = λ w. err (codes "timeout") }
