-- ===== src/Bindings/Validation/Rejections.antt =====
-- The rejections that the validation of a binding ends with: each of them runs again after five minutes.
use kflared.Base.{
  ◌≡◌, sym, ap, ◌∙◌, arith, Bool, true, false, Option, none, some, String, Text, text_eq,
  if◌then◌else◌,
}
use kflared.Errors.{Err, Result, ok, err}
use kflared.Api.{CloudflareTunnelBinding, ClusterCloudflareProvider}
use kflared.Kube.{Gateway, GatewayClass, NamespacedName, Service}
use kflared.Platform.{Platform, State, M, Outcome, ◌>>=◌, pure, fail, attempt, on_result, on_option}
use kflared.Platform.Chains.{bind-ok, bind-first}
use kflared.Settings.{Settings}
use kflared.Bindings.Status.{rejected}
use kflared.Bindings.Origin.{
  Step, stop, proceed, on_step, reject, check_service, read_service, validate_service,
  check_gateway, read_class, validate_origin_service,
}
use kflared.Bindings.Validation.{
  Plan, check_gateway_winner, check_namespace, check_provider, validate_cluster_provider,
  check_hostname_winner, plan_hostnames, plan_routes, validate_and_plan,
}

abbrev Binding : Type 0
Binding = CloudflareTunnelBinding

-- Where the run stops, it runs again after five minutes.
pub record Rejects {A : Type 0} (m : M Binding (Step A)) : Type 0 where
  pub later : (s s' : State Binding) (o : Outcome) → m s ≡ (ok (stop o), s') → o.requeue_after ≡ 300

same_rejection : (a o : Outcome) (s s' : State Binding) → pure a s ≡ (ok o, s') → a ≡ o
unfolding ◌>>=◌
same_rejection a o s s' e = ground arith

rejected-requeue :
    (p : Platform) (reason : String) (text : Text) (cause : Option Err) (s : State Binding)
    (o : Outcome)
    → (rejected p reason text cause s).0 ≡ ok o
    → o.requeue_after ≡ 300
unfolding rejected
rejected-requeue p reason text cause s o e =
    let (patched, t, q) =
      bind-ok (attempt _) _ s (rejected p reason text cause s).1 o
        (ap (λ (v : Result Outcome). (v, (rejected p reason text cause s).1)) e) in
    sym (ap (λ (v : Outcome). v.requeue_after) (same_rejection _ o t _ q))

module _ {A : Type 0} where
  same_stop :
      (a o : Outcome) (s s' : State Binding)
      → pure {A = Step A} (stop a) s ≡ (ok (stop o), s')
      → a ≡ o
  unfolding ◌>>=◌
  same_stop a o s s' e = ground arith

  reject-Rejects :
      (p : Platform) (reason : String) (text : Text) (cause : Option Err)
      → Rejects {A = A} (reject p reason text cause)
  unfolding reject
  reject-Rejects p reason text cause = record {
    later = λ s s' o e.
        let (a, t, got, q) = bind-first (rejected p reason text cause) _ s s' (stop o) e in
        ap (λ (v : Outcome). v.requeue_after) (sym (same_stop a o t s' q))
        ∙ rejected-requeue p reason text cause s a got;
  }

  Rejects-fail : (x : Err) → Rejects {A = A} (fail x)
  unfolding ◌>>=◌
  Rejects-fail x = record { later = λ s s' o e. absurd (ground arith) }

  Rejects-proceed : (a : A) → Rejects (pure (proceed a))
  unfolding ◌>>=◌
  Rejects-proceed a = record { later = λ s s' o e. absurd (ground arith) }

  Rejects-if :
      (b : Bool) (m n : M Binding (Step A)) → Rejects m → Rejects n → Rejects (if b then m else n)
  Rejects-if true m n first second = first
  Rejects-if false m n first second = second

  Rejects-result :
      {B : Type 0} (r : Result B) (f : Err → M Binding (Step A)) (g : B → M Binding (Step A))
      → ((x : Err) → Rejects (f x))
      → ((b : B) → Rejects (g b))
      → Rejects (on_result r f g)
  unfolding on_result
  Rejects-result (ok b) f g bad good = good b
  Rejects-result (err x) f g bad good = bad x

  Rejects-option :
      {B : Type 0} (o : Option B) (m : M Binding (Step A)) (f : B → M Binding (Step A))
      → Rejects m
      → ((b : B) → Rejects (f b))
      → Rejects (on_option o m f)
  unfolding on_option
  Rejects-option none m f nothing something = nothing
  Rejects-option (some b) m f nothing something = something b

  Rejects-bind :
      {B : Type 0} (m : M Binding B) (f : B → M Binding (Step A))
      → ((b : B) → Rejects (f b))
      → Rejects (m >>= f)
  Rejects-bind m f rest = record {
    later = λ s s' o e. let (b, t, q) = bind-ok m f s s' (stop o) e in (rest b).later t s' o q;
  }

  stepped :
      {B : Type 0} (m : M Binding (Step B)) (f : B → M Binding (Step A)) (b : Step B)
      (s t s' : State Binding) (o : Outcome)
      → Rejects m
      → ((b : B) → Rejects (f b))
      → (m s).0 ≡ ok b
      → on_step b f t ≡ (ok (stop o), s')
      → o.requeue_after ≡ 300
  stepped m f (proceed b) s t s' o checked rest got q = (rest b).later t s' o q
  stepped {B} m f (stop a) s t s' o checked rest got q =
      ap (λ (v : Outcome). v.requeue_after) (sym (same_stop a o t s' q))
      ∙ checked.later s (m s).1 a (ap (λ (v : Result (Step B)). (v, (m s).1)) got)

  -- After a check that may itself reject.
  Rejects-step :
      {B : Type 0} (m : M Binding (Step B)) (f : B → M Binding (Step A))
      → Rejects m
      → ((b : B) → Rejects (f b))
      → Rejects (m >>= λ x. on_step x f)
  Rejects-step m f checked rest = record {
    later = λ s s' o e.
        let (b, t, got, q) = bind-first m (λ x. on_step x f) s s' (stop o) e in
        stepped m f b s t s' o checked rest got q;
  }

ruleset rejects_rules = (
  reject-Rejects, Rejects-fail, Rejects-proceed, Rejects-if, Rejects-result, Rejects-option,
  Rejects-bind,
)

module _ (p : Platform) where
  check_service-Rejects : (b : Binding) (service : Service) → Rejects (check_service p b service)
  unfolding check_service
  check_service-Rejects b service = search rejects_rules depth 12

  read_service-Rejects : (b : Binding) (key : NamespacedName) → Rejects (read_service p b key)
  unfolding read_service
  read_service-Rejects b key = search (rejects_rules, check_service-Rejects) depth 12

  validate_service-Rejects : (b : Binding) (ns : Text) → Rejects (validate_service p b ns)
  unfolding validate_service
  validate_service-Rejects b ns = search (rejects_rules, read_service-Rejects) depth 12

  check_gateway-Rejects :
      (b : Binding) (gateway : Gateway) (class : GatewayClass)
      → Rejects (check_gateway p b gateway class)
  unfolding check_gateway
  check_gateway-Rejects b gateway class = search (rejects_rules, validate_service-Rejects) depth 12

  read_class-Rejects : (b : Binding) (gateway : Gateway) → Rejects (read_class p b gateway)
  unfolding read_class
  read_class-Rejects b gateway = search (rejects_rules, check_gateway-Rejects) depth 12

  origin-Rejects : Rejects (validate_origin_service p)
  unfolding validate_origin_service
  origin-Rejects = search (rejects_rules, read_class-Rejects) depth 12

module _ (p : Platform) (r : Settings) where
  check_gateway_winner-Rejects :
      (provider : ClusterCloudflareProvider) → Rejects (check_gateway_winner p r provider)
  unfolding check_gateway_winner
  check_gateway_winner-Rejects provider = search rejects_rules depth 12

  check_namespace-Rejects :
      (provider : ClusterCloudflareProvider) → Rejects (check_namespace p r provider)
  unfolding check_namespace
  check_namespace-Rejects provider = search (rejects_rules, check_gateway_winner-Rejects) depth 12

  check_provider-Rejects :
      (provider : ClusterCloudflareProvider) → Rejects (check_provider p r provider)
  unfolding check_provider
  check_provider-Rejects provider = search (rejects_rules, check_namespace-Rejects) depth 12

  provider-Rejects : Rejects (validate_cluster_provider p r)
  unfolding validate_cluster_provider
  provider-Rejects = search (rejects_rules, check_provider-Rejects) depth 12

  check_hostname-Rejects : (plan : Plan) → Rejects (check_hostname_winner p r plan)
  unfolding check_hostname_winner
  check_hostname-Rejects plan = search rejects_rules depth 12

  plan_hostnames-Rejects : (plan : Plan) → Rejects (plan_hostnames p r plan)
  unfolding plan_hostnames
  plan_hostnames-Rejects plan = search (rejects_rules, check_hostname-Rejects) depth 12

  plan_routes-Rejects :
      (provider : ClusterCloudflareProvider) (origin : Text)
      → Rejects (plan_routes p r provider origin)
  unfolding plan_routes
  plan_routes-Rejects provider origin = search (rejects_rules, plan_hostnames-Rejects) depth 12

  pub validate_and_plan-Rejects : Rejects (validate_and_plan p r)
  unfolding validate_and_plan
  validate_and_plan-Rejects =
      Rejects-step (validate_cluster_provider p r) _ provider-Rejects λ provider.
        Rejects-step (validate_origin_service p) (plan_routes p r provider) (origin-Rejects p)
          (plan_routes-Rejects provider)
