-- ===== src/Command/Start.antt =====
-- cmd/main.go: the steps of `main` after the flags are read, up to the start of the manager, with the
-- `SetupWithManager` of the three reconcilers. What controller-runtime does at a step is a parameter.
pub mod Order
use kflared.Base.{ℕ, Bool, Option, none, some, List, [], ◌∷◌, ◌++◌, String}
use kflared.Errors.{Err, Result, ok, err}
use kflared.Kube.{Kind, Object, binding_kind, route_kind, provider_kind}
use kflared.Platform.{Platform}
use kflared.Settings.{Settings}
use kflared.Command.{Flags, ManagerOptions, Setup, setup}
use kflared.Bindings.Watches as BindingWatches
use kflared.PrivateRoutes.Watches as RouteWatches
use kflared.Providers.Watches as ProviderWatches

-- What `SetupWithManager` gives the builder: the kind that is reconciled with the predicate on it, the
-- kinds whose changes are mapped to it, and the reconciler's fields.
pub record Controller : Type 0 where
  pub name : String
  pub reconciled : Kind
  pub predicate : Object → Bool
  pub watches : List Kind
  pub settings : Settings

abbrev pub provider_controller : Settings → Controller
provider_controller r = record {
  name = "clustercloudflareprovider";
  reconciled = provider_kind;
  predicate = ProviderWatches.cluster_provider_class_predicate r.controller_class;
  watches = [];
  settings = r;
}

abbrev pub binding_controller : Settings → Controller
binding_controller r = record {
  name = "cloudflaretunnelbinding";
  reconciled = binding_kind;
  predicate = BindingWatches.binding_class_predicate r.controller_class;
  watches = BindingWatches.watched_kinds;
  settings = r;
}

abbrev pub route_controller : Settings → Controller
route_controller r = record {
  name = "cloudflaretunnelprivateroute";
  reconciled = route_kind;
  predicate = RouteWatches.route_class_predicate r;
  watches = RouteWatches.watched_kinds;
  settings = r;
}

-- What is asked of controller-runtime. `GetConfigOrDie` exits with 1 where there is no configuration.
pub data Step : Type 0 where
  get_config : Step
  new_manager : ManagerOptions → Step
  complete : Controller → Step
  add_healthz_check add_readyz_check : String → Step
  start : Step

-- A step with its error, which is `none` where it is nil.
abbrev pub Entry : Type 0
Entry = Step × Option Err

-- `none` after os.Exit(1), with the steps that were taken.
abbrev pub Run : Type 0 → Type 0 → Type 0
Run S A = S → Option A × List Entry × S

module _ {S : Type 0} where
  abbrev pub finish : Run S (Unit {0})
  finish s = (some tt, [], s)

  abbrev pub exit : Run S (Unit {0})
  exit s = (none, [], s)

  -- `if err := step; err != nil { os.Exit(1) }`
  unfoldable pub check : Step → Option Err → Run S (Unit {0}) → Run S (Unit {0})
  check x (some e) next s = (none, (x, some e) ∷ [], s)
  check x none next s = let (done, log, s') = next s in (done, (x, none) ∷ log, s')

  unfoldable pub step : (Step → S → Option Err × S) → Step → Run S (Unit {0}) → Run S (Unit {0})
  step runtime x next s = let (failure, s') = runtime x s in check x failure next s'

  unfoldable pub start_with : (Step → S → Option Err × S) → Setup → Run S (Unit {0})
  start_with runtime x = step runtime get_config (
      step runtime (new_manager x.manager) (
        step runtime (complete (provider_controller x.provider)) (
          step runtime (complete (binding_controller x.binding)) (
            step runtime (complete (route_controller x.private_route)) (
              step runtime (add_healthz_check "healthz")
                (step runtime (add_readyz_check "readyz") (step runtime start finish)))))))

  unfoldable pub start_or_exit : (Step → S → Option Err × S) → Result Setup → Run S (Unit {0})
  start_or_exit runtime (err _) = exit
  start_or_exit runtime (ok x) = start_with runtime x

  unfoldable pub main : (Step → S → Option Err × S) → Platform → Flags → Run S (Unit {0})
  main runtime p flags = start_or_exit runtime (setup p flags)

-- The status with which the process ends.
unfoldable pub exit_code : Option (Unit {0}) → ℕ
exit_code none = 1
exit_code (some _) = 0
