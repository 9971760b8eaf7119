-- ===== src/Controller/Manager.antt =====
-- internal/controller/ip_manager.go, without its logs and metrics.
pub mod Release
pub mod Single
pub mod Deletion
pub mod Conflicts
pub mod Restart
pub mod Fresh
pub mod Before
pub mod Services
pub mod Stored
pub mod Gives
use helios_lb.Prelude.{
  ℕ, ◌≡◌, Bool, true, false, not, ◌&&◌, ◌||◌, List, [], ◌∷◌, Option, none, some, ltb, ◌++◌, ◌%◌,
  ◌^◌, ◌-◌, if◌then◌else◌, length, Text, text_eq, codes, trim_space, Dict, insert, Result, ok, err,
}
use helios_lb.Prelude.Int.{ℤ, pos, ltb_ℤ, to_int32}
use helios_lb.Net.Addr.{to4}
use helios_lb.Net.Parse.{parse_ip}
use helios_lb.Network.Allocator.{AllocError, ip_in_range}
use helios_lb.Network.Manager.{
  NetworkManager, manager_allocate, manager_allocate_specific, manager_mark_used, manager_release,
}
use helios_lb.Api.Types.{HeliosConfig, load_balancer_class_helios}
use helios_lb.Controller.Types.{Service, Client}

unfoldable pub split_requested_ip : Text → Text × Text
split_requested_ip requested = elim (parse_ip (trim_space requested)) [
  | none ↦ ([], [])
  | some ip ↦ elim (to4 ip) [
    | some v4 ↦ (trim_space requested, [])
    | none ↦ ([], trim_space requested)
  ]
]

unfoldable pub allocate : NetworkManager → Text → Text → Result AllocError Text × NetworkManager
allocate nm ip_range requested =
    if text_eq requested []
    then manager_allocate nm ip_range
    else manager_allocate_specific nm ip_range requested

-- The values of a map, each marked.
unfoldable pub mark_all : NetworkManager → Dict Text → NetworkManager
mark_all nm [] = nm
mark_all nm ((service, ip) ∷ m) = mark_all (manager_mark_used nm ip) m

unfoldable pub same_config : HeliosConfig → HeliosConfig → Bool
same_config c d = text_eq c.name d.name && text_eq c.namespace d.namespace

-- The addresses of the other configs, marked.
unfoldable pub mark_others : NetworkManager → HeliosConfig → List HeliosConfig → NetworkManager
unfolding mark_all same_config
mark_others nm hc [] = nm
mark_others nm hc (c ∷ cs) =
    let skip = mark_others nm hc cs in
    let marked =
      mark_others (mark_all (mark_all nm c.status.allocated_ips) c.status.allocated_ipv6s) hc cs in
    if same_config c hc then skip else marked

pub data AssignError (E : Type 0) : Type 0 where
  list_failed update_failed : E → AssignError E
  ipv4_failed ipv6_failed : AllocError → AssignError E

abbrev pub class_annotation : Text
class_annotation = codes "balancer.helios.dev/load-balancer-class"

-- The service with its class and its addresses.
unfoldable pub prepared : Service → Text → Text → Service
unfolding text_eq
prepared svc ip ipv6 = record svc {
  annotations = insert class_annotation load_balancer_class_helios svc.annotations;
  load_balancer_class = some load_balancer_class_helios;
  ingress = ip ∷ (if text_eq ipv6 [] then [] else ipv6 ∷ []);
}

unfoldable pub release_values : NetworkManager → Dict Text → NetworkManager
release_values nm [] = nm
release_values nm ((service, ip) ∷ m) = release_values (manager_release nm ip) m

unfoldable pub is_in : Text → List Text → Bool
is_in s [] = false
is_in s (t ∷ ts) = text_eq s t || is_in s ts

-- The keys of a map, in front of names, each once.
unfoldable pub service_names : Dict Text → List Text → List Text
service_names [] names = names
service_names ((service, ip) ∷ m) names =
    let rest = service_names m names in if is_in service rest then rest else service ∷ rest

-- `conflicts[ip] = owner` for each address of the map in the range; `note` ends the owner's text.
unfoldable pub conflicts_of : HeliosConfig → Text → Text → Dict Text → Dict Text → Dict Text
conflicts_of other ip_range note [] conflicts = conflicts
conflicts_of other ip_range note ((service, ip) ∷ m) conflicts =
    let owner =
      other.namespace ++ (codes "/" ++ (other.name ++ (codes " (svc: " ++ (service ++ note)))) in
    let without = conflicts_of other ip_range note m conflicts in
    let with_it = conflicts_of other ip_range note m (insert ip owner conflicts) in
    if ip_in_range ip ip_range then with_it else without

-- The loop over the configs.
unfoldable pub conflicts_from : HeliosConfig → List HeliosConfig → Dict Text → Dict Text
conflicts_from hc [] conflicts = conflicts
conflicts_from hc (c ∷ cs) conflicts =
    let v4 = conflicts_of c hc.spec.ip_range (codes ")") c.status.allocated_ips conflicts in
    let v6 =
      if text_eq hc.spec.ipv6_range []
      then v4
      else conflicts_of c hc.spec.ipv6_range (codes ", ipv6)") c.status.allocated_ipv6s v4 in
    let skip = conflicts_from hc cs conflicts in
    let rest = conflicts_from hc cs v6 in if same_config c hc then skip else rest

module _ {W E : Type 0} (client : Client W E) where
  -- The spec is updated behind the status, from the object that the status update refreshed.
  unfoldable pub update_behind : Result E Service × W → Result E (Unit {0}) × W
  update_behind (err e, w) = (err e, w)
  update_behind (ok svc, w) =
      let (r, w') = client.update w svc in (elim r [ err e ↦ err e | ok s ↦ ok tt ], w')

  unfoldable pub assign_attempt : Service → Text → Text → W → Result E (Unit {0}) × W
  unfolding update_behind prepared
  assign_attempt svc ip ipv6 w = elim (client.get_service w svc.namespace svc.name) [
    | err e ↦ (err e, w)
    | ok now ↦ update_behind (client.update_status w (prepared now ip ipv6))
  ]

  unfoldable pub assign_ip_to_service : Service → Text → Text → W → Result E (Unit {0}) × W
  unfolding assign_attempt
  assign_ip_to_service svc ip ipv6 w = client.retry_on_conflict (assign_attempt svc ip ipv6) w

  abbrev pub Outcome : Type 0
  Outcome = Result (AssignError E) (Text × Text) × NetworkManager × W

  -- Behind the assignment: its failure releases what was allocated.
  unfoldable pub assigned : Text → Text → NetworkManager → Result E (Unit {0}) × W → Outcome
  assigned ip ipv6 nm (ok done, w) = (ok (ip, ipv6), nm, w)
  assigned ip ipv6 nm (err e, w) = (
    err (update_failed e),
    if text_eq ipv6 [] then manager_release nm ip else manager_release (manager_release nm ip) ipv6,
    w,
  )

  -- Behind the second allocation.
  unfoldable pub with_ipv6 : Service → Text → W → Result AllocError Text × NetworkManager → Outcome
  with_ipv6 svc ip w (err e, nm) = (err (ipv6_failed e), manager_release nm ip, w)
  with_ipv6 svc ip w (ok ipv6, nm) = assigned ip ipv6 nm (assign_ip_to_service svc ip ipv6 w)

  -- Behind the first allocation.
  unfoldable pub with_ipv4 :
      HeliosConfig → Service → Text → W → Result AllocError Text × NetworkManager → Outcome
  with_ipv4 hc svc requested_v6 w (err e, nm) = (err (ipv4_failed e), nm, w)
  with_ipv4 hc svc requested_v6 w (ok ip, nm) =
      if text_eq hc.spec.ipv6_range []
      then assigned ip [] nm (assign_ip_to_service svc ip [] w)
      else with_ipv6 svc ip w (allocate nm hc.spec.ipv6_range requested_v6)

  unfoldable pub allocate_and_assign : NetworkManager → W → HeliosConfig → Service → Outcome
  allocate_and_assign nm w hc svc = elim (client.list_configs w) [
    | err e ↦ (err (list_failed e), nm, w)
    | ok configs ↦
        let (v4, v6) = split_requested_ip svc.load_balancer_ip in
        with_ipv4 hc svc v6 w (allocate (mark_others nm hc configs) hc.spec.ip_range v4)
  ]

  -- The ingress of a service that the client finds is cleared; errors are only logged.
  unfoldable pub clear_ingress : Text → List Text → W → W
  clear_ingress namespace [] w = w
  clear_ingress namespace (name ∷ names) w =
      clear_ingress namespace names (elim (client.get_service w namespace name) [
        | err e ↦ w
        | ok svc ↦ (client.update_status w (record svc { ingress = [] })).1
      ])

  unfoldable pub release_all : NetworkManager → W → HeliosConfig → NetworkManager × W
  unfolding clear_ingress release_values service_names
  release_all nm w hc = (
    release_values (release_values nm hc.status.allocated_ips) hc.status.allocated_ipv6s,
    clear_ingress hc.namespace
        (service_names hc.status.allocated_ips (service_names hc.status.allocated_ipv6s [])) w,
  )

  -- The map of conflicts; an empty one is nil. An error is passed on without the text around it.
  unfoldable pub check_ip_conflicts : W → HeliosConfig → Result E (Dict Text)
  check_ip_conflicts w hc = elim (client.list_configs w) [
    | err e ↦ err e
    | ok configs ↦ ok (conflicts_from hc configs [])
  ]

-- Whether `CheckQuota` returns no error.
unfoldable pub within_quota : HeliosConfig → Bool
unfolding to_int32
within_quota hc = not (
    ltb_ℤ (pos 0) hc.spec.max_allocations
    && not (ltb_ℤ (to_int32 (length hc.status.allocated_ips)) hc.spec.max_allocations))
