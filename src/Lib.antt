-- ===== src/Lib.antt =====
-- helios-lb, a Kubernetes controller that gives addresses to Services of type LoadBalancer.
--
-- The program reads HeliosConfig resources (api/v1). Its admission webhook checks a resource before
-- it is stored; its controller (internal/controller) allocates addresses of the resource's ranges
-- with the network manager (internal/network), writes them into the Services and into the status of
-- the resource, and counts what it does (internal/metrics). The load balancer
-- (internal/loadbalancer) keeps backends, selects among them and checks their health; the command
-- (cmd) creates one and hands it to the reconciler, which does not call it, and starts the manager.
--
-- Parts and files:
--   Prelude       library names passed on, Boolean tests and integers over the native numbers,
--                 association lists for Go maps, results, Go strings as lists of code points.
--   Net           Go's standard library as the program uses it: `net.IP` as its bytes, `ParseIP` and
--                 `ParseCIDR`, `IP.String`, masks, and what parsed addresses satisfy.
--   Network       internal/network. Network/Parse is parse.go: `normalize_ip`, `compare_ips`,
--                 `increment_ip`, `decrement_ip`, `parse_ip_range`. Network/Allocator is
--                 ip_allocator.go: `IpAllocator` is the map of used addresses with the scan limit,
--                 `allocate_ip`, `allocate_specific_ip`, `mark_used`, `release_ip`, `ip_allocatable`,
--                 `ip_in_range`. Network/Manager is network.go.
--   LoadBalancer  internal/loadbalancer. Types is types.go with the accessors of a backend;
--                 Algorithms is algorithms.go; Balancer is balancer.go, backend.go, metrics.go and
--                 health.go; Report is `UpdateMetrics`; Loop is the goroutines: `Step` is one step
--                 of `healthCheckLoop`, of a running check or of a caller of `Stop`.
--   Api           api/v1. Types is heliosconfig_types.go, Webhook is heliosconfig_webhook.go, Scheme is
--                 groupversion_info.go.
--   Controller    internal/controller. Types is the Service resource, the Kubernetes client and the
--                 helpers of controller-runtime as parameters; Filter is service_filter.go; Manager
--                 is ip_manager.go, with `allocate_and_assign`, `release_all`, `check_ip_conflicts`,
--                 `within_quota`; Errors is errors.go; Reconciler is `Reconcile` and
--                 `handleDeletion` of heliosconfig_controller.go, where `serve` is the loop over the
--                 services and Reconciler/Main the steps around it; Watch is
--                 `findLoadBalancerServices`.
--   Metrics       internal/metrics: the metrics with their labels, and what the recorder sends.
--   Command       cmd/main.go: `Flags`, `tls_opts` and `manager_options` are what it asks of the servers,
--                 `new_reconciler` the objects that it builds, `main` its calls up to the start of the
--                 manager, `program` the same behind `init`. Command/Process runs reconciliations one behind the other from that state,
--                 with any change of the cluster between two; Command/Admitted is about the webhook and
--                 the controller on one cluster.
--   Tests         runs at fixed inputs and instances of the theorems.
--
-- Correspondence. A method with a mutex is one step from a state to a state, so a sequence of calls
-- stands for any interleaving of goroutines. An error of the network and of the webhook is a case of
-- a data type, without its message; the controller's error classes keep their texts. A `*Backend` is
-- a number into a store of backends; an `int32` or `uint32` counter is a natural number with its
-- wrap-around written out; `int` is unbounded. A map is an association list whose missing keys read
-- as Go's zero value; a range over a map follows the list. A reconciliation passes on the network
-- manager, the state of the cluster, the events and the samples of the metrics.
--
-- Parameters: `rand.Intn`, the dial and the HTTP request of a health check, the list that the
-- Kubernetes client returns to the webhook, and the client of the controller with its retry: for
-- each call what it returns and the state of the cluster after it; the finalizer helpers,
-- `meta.SetStatusCondition`, the duration of a reconciliation, and the text of the error that an
-- allocation error wraps; and the libraries that cmd/main.go calls, as `Platform`: each call takes the
-- state of the manager and returns the next or an error.
--
-- Bounds: the scan of `AllocateIP` recurs on what is left of `maxScan`, which the code itself
-- counts. No other loop needs fuel: each recurs on a list or on an index that goes down.
--
-- Not modelled: logs and the logger's options, the parsing of the command line, the buckets and help
-- texts of the metrics and the Prometheus client, generated deep copies, log keys, test utilities.
pub mod Prelude
pub mod Net
pub mod Network
pub mod LoadBalancer
pub mod Api
pub mod Controller
pub mod Metrics
pub mod Command
mod Tests
