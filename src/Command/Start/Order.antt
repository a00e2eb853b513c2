-- ===== src/Command/Start/Order.antt =====
-- The order in which the operator is started.
use kflared.Base.{ℕ, ◌≡◌, refl, Bool, true, false, Option, none, some, List, [], ◌∷◌, text_eq, ◌==◌}
use kflared.Base.Strings.{trim_space}
use kflared.Settings.{Settings}
use kflared.Errors.{Err}
use kflared.Platform.{Platform}
use kflared.Command.{Flags, Setup, setup, leader_election_id, validate_controller_class}
use kflared.Command.Start.{
  Step, Entry, Run, get_config, new_manager, complete, add_healthz_check, add_readyz_check, start,
  finish, check, step, start_with, start_or_exit, main, exit_code, provider_controller,
  binding_controller, route_controller,
}

-- The log of a process that is to take these steps, and its status at the end: it takes them in order
-- up to the first that fails.
pub data Follows : List Step → List Entry → ℕ → Type 0 where
  finished : Follows [] [] 0
  failed : (x : Step) (steps : List Step) (e : Err) → Follows (x ∷ steps) ((x, some e) ∷ []) 1
  passed :
      (x : Step) (steps : List Step) (log : List Entry) (code : ℕ)
      → Follows steps log code
      → Follows (x ∷ steps) ((x, none) ∷ log) code

-- The steps in the order in which they are asked for.
abbrev pub steps_of : Setup → List Step
steps_of x =
    get_config
    ∷ new_manager x.manager
    ∷ complete (provider_controller x.provider)
    ∷ complete (binding_controller x.binding)
    ∷ complete (route_controller x.private_route)
    ∷ add_healthz_check "healthz"
    ∷ add_readyz_check "readyz"
    ∷ start
    ∷ []

-- The class is missing, or is of spaces alone.
abbrev pub is_blank : Flags → Bool
is_blank flags = trim_space flags.controller_class == []

-- The reconciler's fields are those of the flags.
abbrev pub IsOf : Flags → Settings → Type 0
IsOf flags r =
    (r.controller_class ≡ flags.controller_class) × (r.system_namespace ≡ flags.system_namespace)

-- All three reconcilers have the class and the namespace of the flags, and the manager elects its
-- leader as the flags say, under the ID of the class.
pub record Carries (p : Platform) (flags : Flags) (x : Setup) : Type 0 where
  pub providers : IsOf flags x.provider
  pub bindings : IsOf flags x.binding
  pub private_routes : IsOf flags x.private_route
  pub elects : x.manager.leader_election ≡ flags.enable_leader_election
  pub elected : x.manager.leader_election_id ≡ leader_election_id p flags.controller_class

-- A blank class is refused before the first step, and no other flags are.
pub data Starts (p : Platform) (flags : Flags) : List Entry → ℕ → Type 0 where
  refused : is_blank flags ≡ true → Starts p flags [] 1
  followed :
      (x : Setup) (log : List Entry) (code : ℕ)
      → is_blank flags ≡ false
      → Carries p flags x
      → Follows (steps_of x) log code
      → Starts p flags log code

pub record Keeps {S : Type 0} (steps : List Step) (run : Run S (Unit {0})) : Type 0 where
  pub at : (s : S) → Follows steps (run s).1 (exit_code (run s).0)

module _ {S : Type 0} (runtime : Step → S → Option Err × S) where
  check-Follows :
      (x : Step) (steps : List Step) (failure : Option Err) (next : Run S (Unit {0})) (s : S)
      → Keeps steps next
      → Follows (x ∷ steps) (check x failure next s).1 (exit_code (check x failure next s).0)
  unfolding check exit_code
  check-Follows x steps (some e) next s rest = failed x steps e
  check-Follows x steps none next s rest = passed x steps _ _ (rest.at s)

  step-Keeps :
      (x : Step) (steps : List Step) (next : Run S (Unit {0}))
      → Keeps steps next
      → Keeps (x ∷ steps) (step runtime x next)
  unfolding step
  step-Keeps x steps next rest = record {
    at = λ s. check-Follows x steps (runtime x s).0 next (runtime x s).1 rest;
  }

  finish-Keeps : Keeps {S = S} [] finish
  unfolding exit_code
  finish-Keeps = record { at = λ s. finished }

  start_with-Keeps : (x : Setup) → Keeps (steps_of x) (start_with runtime x)
  unfolding start_with
  start_with-Keeps x = step-Keeps _ _ _ (
      step-Keeps _ _ _ (
        step-Keeps _ _ _ (
          step-Keeps _ _ _ (
            step-Keeps _ _ _
              (step-Keeps _ _ _ (step-Keeps _ _ _ (step-Keeps _ _ _ finish-Keeps)))))))

  by_class :
      (p : Platform) (flags : Flags) (blank : Bool) (s : S)
      → is_blank flags ≡ blank
      → Starts p flags (main runtime p flags s).1 (exit_code (main runtime p flags s).0)
  unfolding main start_or_exit exit_code setup validate_controller_class
  by_class p flags true s e = rw e (refused e)
  by_class p flags false s e = rw e (
      followed _ _ _ e
        (record {
          providers = (refl, refl);
          bindings = (refl, refl);
          private_routes = (refl, refl);
          elects = refl;
          elected = refl;
        })
        ((start_with-Keeps _).at s))

  -- Whatever controller-runtime does at each step: where the controller class is missing or of spaces
  -- alone, the command exits with 1 and asks nothing of it. With any other flags, the command reads the
  -- configuration, makes the manager, completes the controllers of the providers, the bindings and the
  -- private routes, adds the two checks and starts the manager, in this order; the three reconcilers
  -- have the class and the system namespace of the flags, and the manager elects its leader if the
  -- flags say so, under the ID of the class; the first step that fails is the last one, and the
  -- command exits with 1; if none fails, it ends with 0.
  pub main-Starts :
      (p : Platform) (flags : Flags) (s : S)
      → Starts p flags (main runtime p flags s).1 (exit_code (main runtime p flags s).0)
  main-Starts p flags s = by_class p flags (is_blank flags) s refl
