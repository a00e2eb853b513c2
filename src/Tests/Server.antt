-- ===== src/Tests/Server.antt =====
-- A platform whose server answers each call in one way: patches return what was sent, the listings
-- hold the two given lists, Cloudflare holds one private route, and any other read finds nothing.
use kflared.Base.{
  refl, arith, Bool, true, false, not, ◌||◌, Option, none, some, List, [], ◌∷◌, String, str_eq,
  bytes, text_eq, nat_eq, ◌==◌, if◌then◌else◌,
}
use kflared.Errors.{no_match, not_found, Result, ok, err}
use kflared.Api.{Condition, CloudflareTunnelBinding, CloudflareTunnelPrivateRoute}
use kflared.Platform.{Platform, Call, Reply}
use kflared.Platform.{
  list_bindings, list_routes, get_private_route, patch_route, update_route, update_provider,
  get_provider, get_secret, delete_private_route, create_tunnel, patch_binding, get_child,
  delete_child, delete_tunnel, update_binding, rest_mapping, find_tunnel_by_name,
}
use kflared.Conditions.Store.{IsConditionStore}
use kflared.PrivateRoutes.Status.Patches.{KeepsUid, KeepsTunnelName}
use kflared.Connector.{owner_uid_label}
use kflared.Tests.Data.{owned_route, tunnel_named, child_of, provider}

abbrev find_condition : List Condition → String → Option Condition
find_condition [] type = none
find_condition (c ∷ cs) type = if str_eq c.type type then some c else find_condition cs type

abbrev holds_text : List String → String → Bool
holds_text [] s = false
holds_text (t ∷ ts) s = str_eq t s || holds_text ts s

abbrev without : List String → String → List String
without [] s = []
without (t ∷ ts) s = if str_eq t s then without ts s else t ∷ without ts s

abbrev test_answer :
    List CloudflareTunnelBinding → List CloudflareTunnelPrivateRoute → (c : Call) → Result (Reply c)
test_answer bs xs (list_bindings _) = ok bs
test_answer bs xs list_routes = ok xs
test_answer bs xs (get_private_route _ _) = ok (some owned_route)
test_answer bs xs (find_tunnel_by_name _ name) = ok (some (tunnel_named name))
test_answer bs xs (delete_private_route _ _) = ok tt
test_answer bs xs (get_child kind _) = ok (child_of kind "x" ((owner_uid_label, bytes "u1") ∷ []))
test_answer bs xs (create_tunnel _ name) = ok (tunnel_named name)
test_answer bs xs (patch_binding _ next) = ok next
test_answer bs xs (delete_child _) = ok tt
test_answer bs xs (delete_tunnel _ _) = ok tt
test_answer bs xs (update_binding _) = ok tt
test_answer bs xs rest_mapping = err no_match
test_answer bs xs (patch_route _ next) = ok next
test_answer bs xs (update_route _) = ok tt
test_answer bs xs (update_provider _) = ok tt
test_answer bs xs (get_provider _) = ok provider
test_answer bs xs (get_secret _) = ok (record { entries = (bytes "token", bytes "secret") ∷ [] })
test_answer bs xs _ = err not_found

abbrev pub platform_of : List CloudflareTunnelBinding → List CloudflareTunnelPrivateRoute → Platform
platform_of bs xs = record {
  answer = λ h. test_answer bs xs;
  find_status_condition = find_condition;
  set_status_condition = λ cs c. c ∷ cs;
  contains_finalizer = holds_text;
  add_finalizer = λ ts t. t ∷ ts;
  remove_finalizer = without;
  selector_matches = λ _. ok (λ _. true);
  is_subdomain = λ s. not (s == []);
  controller_reference = λ binding _. ok binding.uid;
  sha256_hex = λ s. s;
  quoted = λ s. s;
  error_text = λ _. [];
}

abbrev pub platform : Platform
platform = platform_of [] []

pub platform-IsConditionStore : IsConditionStore platform
platform-IsConditionStore = record { find-set = λ cs c type. refl }

pub platform-KeepsUid : KeepsUid platform
platform-KeepsUid = record { same = λ h base next e. ground arith }

pub platform-KeepsTunnelName : KeepsTunnelName platform
platform-KeepsTunnelName = record { named = λ h base next e. ground arith }
