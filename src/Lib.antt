-- ===== src/Lib.antt =====
-- A model of kflared, a Kubernetes operator that publishes Gateways and Services through Cloudflare
-- tunnels, and theorems about it.
--
-- The operator has three reconcilers. That of ClusterCloudflareProviders checks credentials and
-- keeps a provider alive while others refer to it, that of CloudflareTunnelPrivateRoutes makes a
-- tunnel, a route for one host and a connector, and that of CloudflareTunnelBindings publishes the
-- hostnames of HTTPRoutes. All three read and write the Kubernetes API and Cloudflare's API, and the
-- last one plans by the pure functions of a planner.
--
-- Which file models what:
--   * Planner.antt and its children: internal/planner/planner.go. `normalize_zones` and
--     `normalize_hostnames` are NormalizeZones and NormalizeHostnames, over `canonical` and
--     `is_concrete` of Planner/Canonical.antt; `ingress_rules`, `equal_ingress`, `tunnel_name` and
--     `binding_precedes` are the functions of those names.
--   * Api.antt: api/v1alpha1. Kube.antt: the objects of Kubernetes and the Gateway API that are read
--     or written. Cloudflare.antt: the data of internal/cloudflare/client.go.
--   * Errors.antt: the errors, and what errors.Is, errors.As and errors.Join make of them.
--   * Conditions.antt: internal/controller/conditions.go.
--   * References.antt and Connector.antt, with their children: the helpers at the end of
--     internal/controller/cloudflaretunnelbinding_controller.go, which the reconcilers share, with
--     those for private routes of cloudflaretunnelprivateroute_controller.go beside it.
--   * Settings.antt: the fields of the reconcilers, and their defaults.
--   * Addresses.antt: what is used of Go's package netip.
--   * PrivateRoutes.antt and its children: cloudflaretunnelprivateroute_controller.go. Each method is
--     a run `M Route A`, and a long method is cut into several, named for what they do: `program`,
--     `withdraw` and `leave_old_network` are parts of `reconcile`.
--   * Providers.antt and its children: internal/controller/clustercloudflareprovider_controller.go.
--   * Bindings.antt and its children: cloudflaretunnelbinding_controller.go, again with the long
--     methods cut: `reconcile_alive`, `follow`, `program`, `configure`, `connect` and `publish` are
--     the parts of Reconcile in their order. Validation.antt has validateAndPlan and
--     validateClusterProvider, Origin.antt validateOriginService, Winners.antt the search for the
--     winners of conflicts, Tunnels.antt ensureTunnel, Children.antt and Endpoints.antt the objects
--     of a connector and its DNSEndpoint, Status.antt the three status patches, Finalize.antt
--     finalize and deprogramTunnel, Watches.antt bindingsForObject with the kinds that are watched.
--     Bindings/Settled.antt says that a run changes the object in memory only in its status, for an
--     API server whose status patches do.
--   * Sdk.antt and its children: internal/cloudflare/sdk.go, one function per method. The SDK, with
--     Cloudflare's API behind it, is a parameter `Api S`: it answers each request and keeps a state.
--   * Command.antt: main of cmd/main.go, from the flags to the options of the manager and the fields
--     of the reconcilers, with validateControllerClass and leaderElectionID. Command/Start.antt:
--     the steps of main from there to the start of the manager, each of them a call of
--     controller-runtime, with SetupWithManager of the three reconcilers.
--   * DeepCopies.antt and its children: api/v1alpha1/zz_generated.deepcopy.go. There an object's
--     pointers and slices carry addresses, which the records of Api.antt leave out, and a copy takes
--     new addresses from a counter.
--   * Platform.antt: the two APIs. Each request is a `Call`, and the answer is a function of all that
--     was asked and answered before, so that the theorems hold for any server and any interference
--     by other clients. A run keeps the object that the code mutates in memory, and the log of its
--     calls. Platform/Keeps.antt has the invariants of runs: a policy says which calls may be made
--     after which history. Platform/Chains.antt is about chains that succeed.
--     Platform/Gives.antt, Holds.antt and Leads.antt have the postconditions of runs that succeed, and
--     Platform/Fails.antt those of runs that fail. Platform/Ends.antt is about runs of which one call
--     comes last, after all the rest went well: the update that removes a finalizer.
--   * Base.antt and its children: Boolean tests, texts, orders and sorted sets. Tests.antt and its
--     children: objects, a server, and runs on them.
--
-- Choices. A text is the list of its bytes, and is taken to be ASCII, so that lower case, trimming
-- and the classes of characters are those of ASCII. A Go string that only the program writes, as a
-- condition's type, is a String. A time is a number of seconds, a missing deletion time `none`, and
-- a nil pointer `none`. The arguments of an error's format are kept where they are texts. All loops
-- are over finite slices and are structural recursion. Only the digits of a number are written on
-- fuel: ten digits, which are enough for an int32. CreateOrPatch is the
-- two calls `load_child` and `save_child` round the function that it is given; whether the second
-- one reaches the server is left to the platform. Code outside the repository is a parameter, a field of
-- `Platform`: the check of DNS names, label selectors, the lists of conditions and finalizers, owner
-- references, the text of an error, the verb %q, and SHA-256.
--
-- Not modelled: the parsing of the flags, the logger and the scheme in cmd/main.go; the queue that
-- controller-runtime keeps between a watched change and a run; the helpers of the end-to-end tests;
-- probes, mounts and resource quantities of the connector's pod.
pub mod Base
pub mod Errors
pub mod Api
pub mod Kube
pub mod Cloudflare
pub mod Planner
pub mod Platform
pub mod Conditions
pub mod References
pub mod Connector
pub mod Addresses
pub mod Settings
pub mod Sdk
pub mod PrivateRoutes
pub mod Providers
pub mod Bindings
pub mod Command
pub mod DeepCopies
pub mod Tests
