-- ===== src/Tests/Controller.antt =====
-- Instances of the theorems about internal/controller.
use helios_lb.Prelude.{
  inr, sym, ap, subst, ◌∙◌, text_eq_refl, ◌&&◌, Bool-cases, &&_split, ok-injective, if-true,
  if-false, eq_of_text_eq, inl, ◌↔◌, ◌||◌, if◌then◌else◌, ◌⊎◌, ℕ, ◌≡◌, refl, Bool, true, false,
  List, [], ◌∷◌, Option, none, some, get_elem?, arith, Text, text_eq, codes, Result, ok, err,
}
use helios_lb.Prelude.Int.{pos}
use helios_lb.Net.Addr.{Ip, compare_bytes}
use helios_lb.Controller.Manager.Conflicts.{Clear, check_ip_conflicts_iff}
use helios_lb.Controller.Manager.{assign_ip_to_service, update_behind}
use helios_lb.Tests.Network.{range, first, last, range_parses, range-IsPool}
use helios_lb.Controller.Manager.Services.{no_attempt, StoresServices}
use helios_lb.Controller.Manager.Stored.{Stores, allocate_and_assign-Stores}
use helios_lb.Controller.Manager.Fresh.{Succeeds, allocate_and_assign-Succeeds}
use helios_lb.Controller.Manager.Restart.{restart_gives_first}
use helios_lb.Net.Print.{ip_string}
use helios_lb.Network.Parse.{parse_ip_range, normalize_ip}
use helios_lb.Network.Manager.{new_network_manager}
use helios_lb.Api.Types.{HeliosConfig}
use helios_lb.Controller.Types.{Service, Client}
use helios_lb.Controller.Filter.{filter_eligible_services}
use helios_lb.Controller.Filter.Eligible.{Lists, IsEligible, filter_eligible_services_iff}
use helios_lb.Controller.Manager.{check_ip_conflicts, release_all, mark_others, allocate_and_assign}
use helios_lb.Controller.Manager.Release.{FailsClean, allocate_and_assign-FailsClean}

abbrev pub web : Service
web = record {
  name = codes "web";
  namespace = codes "a";
  is_load_balancer = true;
  load_balancer_class = none;
  load_balancer_ip = [];
  annotations = [];
  ingress = [];
}

abbrev pub taken : Service
taken = record web { ingress = codes "10.0.0.1" ∷ [] }

abbrev pub one_range : Text
one_range = codes "10.0.0.5"

abbrev pub one : HeliosConfig
one = record {
  name = codes "one";
  namespace = codes "a";
  generation = 1;
  deleting = false;
  finalizers = [];
  spec = record {
    ip_range = one_range;
    ipv6_range = [];
    service = [];
    protocol = [];
    ports = [];
    method = [];
    weights = [];
    health_check = none;
    namespace_selector = [];
    max_allocations = pos 0;
  };
  status = record {
    allocated_ips = [];
    allocated_ipv6s = [];
    state = [];
    message = [];
    conditions = [];
    phase = [];
  };
}

-- Another config, which has given out the address of the first.
abbrev pub other : HeliosConfig
other = record one {
  name = codes "other";
  status = record {
    allocated_ips = (codes "api", one_range) ∷ [];
    allocated_ipv6s = [];
    state = [];
    message = [];
    conditions = [];
    phase = [];
  };
}

-- A cluster that has both configs and no service, and counts nothing.
abbrev pub no_services : Client ℕ Text
no_services = record {
  get_config = λ w namespace name. ok one;
  is_not_found = λ e. true;
  update_config = λ w c. (ok c, w);
  update_config_status = λ w c. (ok c, w);
  list_services = λ w. ok [];
  list_configs = λ w. ok (one ∷ other ∷ []);
  get_service = λ w namespace name. err (codes "not found");
  update_status = λ w svc. (ok svc, w);
  update = λ w svc. (ok svc, w);
  retry_on_conflict = λ f w. f w;
}

pub one_parses : parse_ip_range one_range ≡ ok (10 ∷ 0 ∷ 0 ∷ 5 ∷ [], 10 ∷ 0 ∷ 0 ∷ 5 ∷ [])
unfolding parse_ip_range helios_lb.Prelude.contains helios_lb.Prelude.trim_space
    helios_lb.Net.Parse.parse_ip normalize_ip helios_lb.Net.Addr.to4
one_parses = refl

clean_example :
    FailsClean no_services
      (mark_others new_network_manager one (one ∷ other ∷ []))
      (allocate_and_assign no_services new_network_manager 0 one web)
clean_example =
    allocate_and_assign-FailsClean no_services new_network_manager 0 one web (one ∷ other ∷ []) refl

eligible_example :
    Lists (filter_eligible_services (taken ∷ web ∷ []) [] one_range []) web
    ↔ (Lists (taken ∷ web ∷ []) web × IsEligible [] one_range [] web)
eligible_example = filter_eligible_services_iff (taken ∷ web ∷ []) [] one_range [] web

conflicts_example : (check_ip_conflicts no_services 0 one ≡ ok []) ↔ Clear one (one ∷ other ∷ [])
conflicts_example = check_ip_conflicts_iff no_services 0 one (one ∷ other ∷ []) refl

-- The status records the only address of the range.
abbrev resumed : HeliosConfig
resumed = record one { status = other.status }

-- A cluster with one config and one service.
abbrev one_service : Client ℕ Text
one_service = record no_services {
  list_configs = λ w. ok (resumed ∷ []);
  get_service = λ w namespace name. ok web;
}

restart_example :
    (allocate_and_assign one_service new_network_manager 0 resumed web).0
    ≡ ok (ip_string (10 ∷ 0 ∷ 0 ∷ 5 ∷ []), [])
unfolding text_eq helios_lb.Controller.Manager.assign_ip_to_service
    helios_lb.Controller.Manager.same_config compare_bytes
restart_example =
    restart_gives_first one_service 0 0 resumed web (resumed ∷ []) (10 ∷ 0 ∷ 0 ∷ 5 ∷ [])
      (10 ∷ 0 ∷ 0 ∷ 5 ∷ []) refl (refl, tt) refl one_parses refl refl refl

abbrev pooled : HeliosConfig
pooled = record one { spec = record (one.spec) { ip_range = range } }

granted_example :
    Succeeds one_service
      (mark_others new_network_manager pooled (resumed ∷ []))
      (allocate_and_assign one_service new_network_manager 0 pooled web)
granted_example =
    allocate_and_assign-Succeeds one_service new_network_manager 0 pooled web (resumed ∷ []) refl
      (first, last, range_parses, range-IsPool) (inl refl)

-- A cluster that is one service, and no config. A status update leaves the spec.
abbrev found : Service → Text → Text → Bool
found s namespace name = text_eq s.namespace namespace && text_eq s.name name

abbrev one_stored : Client Service Text
one_stored = record {
  get_config = λ w namespace name. err (codes "not found");
  is_not_found = λ e. true;
  update_config = λ w c. (ok c, w);
  update_config_status = λ w c. (ok c, w);
  list_services = λ w. ok (w ∷ []);
  list_configs = λ w. ok [];
  get_service =
      λ w namespace name. if found w namespace name then ok w else err (codes "not found");
  update_status = λ w svc.
      let s = record w { annotations = svc.annotations; ingress = svc.ingress } in (ok s, s);
  update = λ w svc. let s = record svc { ingress = w.ingress } in (ok s, s);
  retry_on_conflict = λ f w. f w;
}

found_only :
    (w s : Service) (namespace name : Text)
    → one_stored.get_service w namespace name ≡ ok s
    → (found w namespace name ≡ true) × (w ≡ s)
found_only w s namespace name h = elim (Bool-cases (found w namespace name)) [
  | inl q ↦ (q, ok-injective w s (sym (if-true _ (ok w) (err (codes "not found")) q) ∙ h))
  | inr q ↦
      let c : err (codes "not found") ≡ ok s =
        sym (if-false _ (ok w) (err (codes "not found")) q) ∙ h in
      cc
]

named_lem :
    (w s : Service) (namespace name : Text)
    → one_stored.get_service w namespace name ≡ ok s
    → (s.namespace ≡ namespace) × (s.name ≡ name)
named_lem w s namespace name h =
    let (q, e) = found_only w s namespace name h in
    let (a, b) = &&_split _ _ q in
    (
      ap (λ x. x.namespace) (sym e) ∙ eq_of_text_eq _ _ a,
      ap (λ x. x.name) (sym e) ∙ eq_of_text_eq _ _ b,
    )

stored_lem :
    (w w' svc stored s : Service)
    → one_stored.get_service w svc.namespace svc.name ≡ ok stored
    → one_stored.update_status w svc ≡ (ok s, w')
    → (s ≡ record stored { annotations = svc.annotations; ingress = svc.ingress })
      × (one_stored.get_service w' svc.namespace svc.name ≡ ok s)
stored_lem w w' svc stored s h u =
    let (q, e) = found_only w stored svc.namespace svc.name h in
    let new : Service = record w { annotations = svc.annotations; ingress = svc.ingress } in
    let same : new ≡ s = ok-injective new s (ap (λ p. p.0) u) in
    (
      sym same
          ∙ ap (λ (x : Service). record x { annotations = svc.annotations; ingress = svc.ingress })
              e,
      subst (λ x. one_stored.get_service x svc.namespace svc.name ≡ ok s) (ap (λ p. p.1) u)
          (if-true _ (ok new) _ q ∙ ap ok same),
    )

updated_lem :
    (w w' svc stored s : Service)
    → one_stored.get_service w svc.namespace svc.name ≡ ok stored
    → one_stored.update w svc ≡ (ok s, w')
    → (s ≡ record svc { ingress = stored.ingress })
      × (one_stored.get_service w' svc.namespace svc.name ≡ ok s)
updated_lem w w' svc stored s h u =
    let (q, e) = found_only w stored svc.namespace svc.name h in
    let new : Service = record svc { ingress = w.ingress } in
    let same : new ≡ s = ok-injective new s (ap (λ p. p.0) u) in
    let own : found new svc.namespace svc.name ≡ true =
      rw (text_eq_refl svc.namespace, text_eq_refl svc.name) refl in
    (
      sym same ∙ ap (λ x. record svc { ingress = x.ingress }) e,
      subst (λ x. one_stored.get_service x svc.namespace svc.name ≡ ok s) (ap (λ p. p.1) u)
          (if-true _ (ok new) _ own ∙ ap ok same),
    )

unfailing : {P : Type 0} → (s : Service) (e : Text) → ok s ≡ err e → P
unfailing s e h = absurd cc

one_stored-StoresServices : StoresServices one_stored
one_stored-StoresServices = record {
  named = λ w namespace name s. named_lem w s namespace name;
  status_update = stored_lem;
  update = updated_lem;
  status_failed = λ w w' svc stored e h u. unfailing _ e (ap (λ p. p.0) u);
  update_failed = λ w w' svc stored e h u. unfailing _ e (ap (λ p. p.0) u);
  retry = λ f w w' q. (w, no_attempt, q);
}

stored_example :
    Stores one_stored web web (allocate_and_assign one_stored new_network_manager web one web)
unfolding text_eq
stored_example =
    allocate_and_assign-Stores one_stored one_stored-StoresServices new_network_manager web one web
      web refl
