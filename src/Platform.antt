-- ===== src/Platform.antt =====
-- The two APIs that the controllers call, Kubernetes' and Cloudflare's, and the helpers of
-- libraries outside the repository. An operation's answer is a function of everything that was
-- asked and answered before, so any stateful server, and any interference by others, is one.
pub mod Keeps
pub mod Chains
pub mod Requeues
pub mod Gives
pub mod Holds
pub mod Fails
pub mod Gone
pub mod Leads
pub mod Ends
use kflared.Base.{ℕ, Bool, Option, none, some, List, [], ◌∷◌, String, Text}
use kflared.Errors.{Err, Result, ok, err}
use kflared.Api.{Condition, LabelSelector, CloudflareTunnelBinding, CloudflareTunnelPrivateRoute}
use kflared.Api.{ClusterCloudflareProvider}
use kflared.Kube.{NamespacedName, Namespace, Secret, Service, ReferenceGrant, Gateway, GatewayClass}
use kflared.Kube.{HttpRoute, Child, ChildKind}
use kflared.Cloudflare.{Tunnel, PrivateRoute, Client}
use kflared.Planner.Ingress.{IngressRule}

pub data Call : Type 0 where
  -- the `Client` interface of internal/cloudflare/client.go
  validate : Client → Call
  find_tunnel_by_name : Client → Text → Call
  get_tunnel : Client → Text → Call
  create_tunnel : Client → Text → Call
  get_configuration : Client → Text → Call
  update_configuration : Client → Text → List IngressRule → Call
  get_token : Client → Text → Call
  delete_tunnel : Client → Text → Call
  list_private_routes : Client → Text → Call
  get_private_route : Client → Text → Call
  create_private_route : Client → Text → Text → Text → Call
  delete_private_route : Client → Text → Call
  -- reads of the Kubernetes API
  get_binding : NamespacedName → Call
  get_route : NamespacedName → Call
  get_provider : Text → Call
  get_namespace : Text → Call
  get_secret : NamespacedName → Call
  get_service : NamespacedName → Call
  get_gateway : NamespacedName → Call
  get_gateway_class : Text → Call
  list_bindings : Option Text → Call
  list_routes : Call
  list_grants : Text → Call
  list_http_routes : Text → Call
  get_child : ChildKind → NamespacedName → Call
  -- the REST mapper, asked for the kind DNSEndpoint
  rest_mapping : Call
  -- writes: `Status().Patch(obj, MergeFrom(base))`, `Update` for the finalizers, children, events
  patch_binding : CloudflareTunnelBinding → CloudflareTunnelBinding → Call
  update_binding : CloudflareTunnelBinding → Call
  patch_route : CloudflareTunnelPrivateRoute → CloudflareTunnelPrivateRoute → Call
  update_route : CloudflareTunnelPrivateRoute → Call
  patch_provider : ClusterCloudflareProvider → ClusterCloudflareProvider → Call
  update_provider : ClusterCloudflareProvider → Call
  -- the two halves of `controllerutil.CreateOrPatch`, round the function that it is given
  load_child : ChildKind → NamespacedName → Call
  save_child : Child → Call
  delete_child : Child → Call
  record_event : String → String → Call

-- What a call returns when it does not fail.
abbrev pub Reply : Call → Type 0
Reply (validate _) = Unit
Reply (find_tunnel_by_name _ _) = Option Tunnel
Reply (get_tunnel _ _) = Option Tunnel
Reply (create_tunnel _ _) = Tunnel
Reply (get_configuration _ _) = List IngressRule
Reply (update_configuration _ _ _) = Unit
Reply (get_token _ _) = Text
Reply (delete_tunnel _ _) = Unit
Reply (list_private_routes _ _) = List PrivateRoute
Reply (get_private_route _ _) = Option PrivateRoute
Reply (create_private_route _ _ _ _) = Option PrivateRoute
Reply (delete_private_route _ _) = Unit
Reply (get_binding _) = CloudflareTunnelBinding
Reply (get_route _) = CloudflareTunnelPrivateRoute
Reply (get_provider _) = ClusterCloudflareProvider
Reply (get_namespace _) = Namespace
Reply (get_secret _) = Secret
Reply (get_service _) = Service
Reply (get_gateway _) = Gateway
Reply (get_gateway_class _) = GatewayClass
Reply (list_bindings _) = List CloudflareTunnelBinding
Reply list_routes = List CloudflareTunnelPrivateRoute
Reply (list_grants _) = List ReferenceGrant
Reply (list_http_routes _) = List HttpRoute
Reply (get_child _ _) = Child
Reply rest_mapping = Unit
Reply (patch_binding _ _) = CloudflareTunnelBinding
Reply (update_binding _) = Unit
Reply (patch_route _ _) = CloudflareTunnelPrivateRoute
Reply (update_route _) = Unit
Reply (patch_provider _ _) = ClusterCloudflareProvider
Reply (update_provider _) = Unit
Reply (load_child _ _) = Child
Reply (save_child _) = Child
Reply (delete_child _) = Unit
Reply (record_event _ _) = Unit

pub data Event : Type 0 where
  event : (c : Call) → Result (Reply c) → Event

-- The latest event first.
abbrev pub History : Type 0
History = List Event

pub record Platform : Type 0 where
  pub answer : History → (c : Call) → Result (Reply c)
  -- `apiMeta.FindStatusCondition` and `apiMeta.SetStatusCondition`
  pub find_status_condition : List Condition → String → Option Condition
  pub set_status_condition : List Condition → Condition → List Condition
  -- `controllerutil.ContainsFinalizer`, `AddFinalizer` and `RemoveFinalizer`, on the list
  pub contains_finalizer : List String → String → Bool
  pub add_finalizer : List String → String → List String
  pub remove_finalizer : List String → String → List String
  -- `metav1.LabelSelectorAsSelector`, and `Matches` of its result
  pub selector_matches : LabelSelector → Result (List (Text × Text) → Bool)
  -- `len(validation.IsDNS1123Subdomain(s)) == 0`
  pub is_subdomain : Text → Bool
  -- `controllerutil.SetControllerReference`: the UID of the controlling owner that it leaves
  pub controller_reference : CloudflareTunnelBinding → Child → Result Text
  -- the hexadecimal digits of a SHA-256 digest
  pub sha256_hex : Text → Text
  -- the verb `%q`
  pub quoted : Text → Text
  -- `err.Error()`
  pub error_text : Err → Text

-- `ctrl.Result`, as the seconds after which to run again, and the error beside it.
pub record Outcome : Type 0 where
  pub requeue_after : ℕ
  pub error : Option Err

-- A reconciler's run over the object that it mutates in memory.
pub record State (O : Type 0) : Type 0 where
  pub object : O
  pub log : History

abbrev pub M : Type 0 → Type 0 → Type 0
M O A = State O → Result A × State O

module _ {O : Type 0} where
  unfoldable pub pure : {A : Type 0} → A → M O A
  pure a s = (ok a, s)

  unfoldable pub fail : {A : Type 0} → Err → M O A
  fail e s = (err e, s)

  unfoldable pub lift : {A : Type 0} → Result A → M O A
  lift r s = (r, s)

  -- `r, err := m`: the error is a value, for the code to look at.
  unfoldable pub attempt : {A : Type 0} → M O A → M O (Result A)
  attempt m s = let (r, s') = m s in (ok r, s')

  unfoldable pub current : M O O
  current s = (ok s.object, s)

  unfoldable pub assign : O → M O (Unit {0})
  assign o s = (ok tt, record s { object = o })

module _ {O A B : Type 0} where
  abbrev pub continue : Result A → (A → M O B) → M O B
  continue (ok a) f s = f a s
  continue (err e) f s = (err e, s)

  infixl 10 ◌>>=◌ ◌>>◌
  -- Opening this opens the actions above too.
  unfoldable pub ◌>>=◌ : M O A → (A → M O B) → M O B
  unfolding pure fail lift attempt current assign
  ◌>>=◌ m f s = let (r, s') = m s in continue r f s'

  abbrev pub ◌>>◌ : M O A → M O B → M O B
  m >> n = m >>= λ _. n

-- `if err != nil` and `if x == nil`, with what is done in either case.
module _ {A B : Type 0} where
  unfoldable pub on_result : Result A → (Err → B) → (A → B) → B
  on_result (ok a) f g = g a
  on_result (err e) f g = f e

  unfoldable pub on_option : Option A → B → (A → B) → B
  on_option none b g = b
  on_option (some a) b g = g a

-- What a run with no result of its own returns: the error, or success with no requeue.
abbrev pub outcome_of : {A : Type 0} → ℕ → Result A → Outcome
outcome_of seconds (ok _) = record { requeue_after = seconds; error = none }
outcome_of seconds (err e) = record { requeue_after = seconds; error = some e }

-- A call: its answer is put on the log, and returned or raised.
module _ (p : Platform) {O : Type 0} where
  unfoldable pub perform : (c : Call) → M O (Reply c)
  perform c s = let a = p.answer s.log c in (a, record s { log = event c a ∷ s.log })
