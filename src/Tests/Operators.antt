-- ===== src/Tests/Operators.antt =====
-- Two operators of the command, and the texts that the controllers print and read.
use kflared.Base.{
  ℕ, suc, Option, none, some, ◌≡◌, ◌≢◌, refl, arith, true, false, [], ◌∷◌, ◌++◌, Text, bytes,
  length, text_eq, nat_eq,
}
use kflared.Base.Strings.{trim_space, trim, trim_left, trim_right, is_space}
use kflared.Errors.{Err, message}
use kflared.Platform.{Platform, on_result}
use kflared.Settings.{owns}
use kflared.Command.{
  Flags, default_flags, Setup, manager_options, settings_of, setup, leader_election_id,
  validate_controller_class,
}
use kflared.Command.Classes.{IsDigest, classes_separate}
use kflared.Command.Start.{Step, main, start_or_exit, start_with, step, check, exit_code, start}
use kflared.Command.Start.Order.{Starts, main-Starts}
use kflared.Tests.Data.{differ}
use kflared.Tests.Server.{platform}

-- A digest that tells classes of different lengths apart.
abbrev digest_of : Text → Text
digest_of s =
    bytes "0123456789abcdef0123456789abcdef0123456789abcdef0123456789abcde" ++ length s ∷ []

abbrev digesting : Platform
digesting = record platform { sha256_hex = digest_of }

class-IsDigest : IsDigest digesting (bytes "class") (bytes "others")
class-IsDigest = record {
  size_left = refl;
  size_right = refl;
  no_collision = λ e. absurd (ground arith);
}

abbrev flags_of : Text → Flags
flags_of class = record (default_flags (bytes "kflared")) { controller_class = class }

abbrev setup_of : Text → Setup
setup_of class = record {
  manager = manager_options digesting (flags_of class);
  provider = settings_of (flags_of class);
  binding = settings_of (flags_of class);
  private_route = settings_of (flags_of class);
}

classes_separate_example :
    (leader_election_id digesting (bytes "class") ≢ leader_election_id digesting (bytes "others"))
    × (length (leader_election_id digesting (bytes "class")) ≡ 85)
    × (owns (setup_of (bytes "class")).binding (bytes "class") ≡ true)
    × ((c : Text)
        → owns (setup_of (bytes "class")).binding c ≡ true
        → owns (setup_of (bytes "others")).binding c ≡ false)
    × ((c : Text)
        → owns (setup_of (bytes "class")).provider c ≡ true
        → owns (setup_of (bytes "others")).provider c ≡ false)
    × ((setup_of (bytes "class")).private_route ≡ (setup_of (bytes "class")).binding)
unfolding setup validate_controller_class trim_space trim trim_left trim_right is_space text_eq
    nat_eq
classes_separate_example =
    classes_separate digesting (flags_of (bytes "class")) (flags_of (bytes "others"))
      (setup_of (bytes "class")) (setup_of (bytes "others")) refl refl
      (differ (bytes "class") (bytes "others") refl) class-IsDigest

-- A controller-runtime that cannot start the manager, and counts what is asked.
abbrev stopping : Step → ℕ → Option Err × ℕ
stopping start n = (some (message "stopped" []), suc n)
stopping _ n = (none, suc n)

eight_steps :
    let (done, log, asked) = main stopping digesting (flags_of (bytes "class")) 0 in
    (exit_code done ≡ 1) × (asked ≡ 8)
unfolding main start_or_exit start_with step check exit_code setup validate_controller_class
    trim_space trim trim_left trim_right is_space text_eq nat_eq on_result
eight_steps = (refl, refl)

no_class :
    let (done, log, asked) = main stopping digesting (flags_of (bytes " ")) 0 in
    (exit_code done ≡ 1) × (asked ≡ 0)
unfolding main start_or_exit exit_code setup validate_controller_class trim_space trim trim_left
    trim_right is_space text_eq nat_eq on_result
no_class = (refl, refl)

main-Starts_example :
    Starts digesting
      (flags_of (bytes "class"))
      (main stopping digesting (flags_of (bytes "class")) 0).1
      (exit_code (main stopping digesting (flags_of (bytes "class")) 0).0)
main-Starts_example = main-Starts stopping digesting (flags_of (bytes "class")) 0
