-- ===== src/PrivateRoutes/Owned.antt =====
-- Which calls a private route may make: those that create, write or delete something may only
-- concern what belongs to the object with this UID. `seen`, `managed` and `loaded` look in the history
-- for the answer that a call rests on.
use kflared.Base.{
  Bool, true, false, ◌&&◌, ◌||◌, some, List, [], ◌∷◌, ◌++◌, Text, bytes, text_eq, ◌==◌,
}
use kflared.Base.Strings.{has_prefix, has_suffix}
use kflared.Errors.{ok}
use kflared.Cloudflare.{PrivateRoute, Tunnel, config_source_cloudflare}
use kflared.Kube.{Child}
use kflared.Connector.{label, private_uid_label}
use kflared.Platform.{
  event, History, get_private_route, list_private_routes, create_private_route, create_tunnel,
  delete_private_route, get_tunnel, delete_tunnel, load_child, save_child, delete_child,
}
use kflared.Platform.Keeps.{Policy}

abbrev pub is_marked : Text → Text → PrivateRoute → Bool
is_marked comment id c = c.id == id && c.comment == comment

abbrev pub listed : Text → Text → List PrivateRoute → Bool
listed comment id [] = false
listed comment id (c ∷ cs) = is_marked comment id c || listed comment id cs

-- Some answer shows a route of Cloudflare with this ID and this comment.
abbrev pub seen : Text → Text → History → Bool
seen comment id [] = false
seen comment id (event (get_private_route _ _) (ok (some c)) ∷ h) =
    is_marked comment id c || seen comment id h
seen comment id (event (list_private_routes _ _) (ok cs) ∷ h) =
    listed comment id cs || seen comment id h
seen comment id (_ ∷ h) = seen comment id h

abbrev pub is_managed : Text → Text → Tunnel → Bool
is_managed name id t = t.id == id && (t.name == name && t.config_source == config_source_cloudflare)

-- Some answer shows a tunnel with this name and this ID that is configured remotely.
abbrev pub managed : Text → Text → History → Bool
managed name id [] = false
managed name id (event (get_tunnel _ _) (ok (some t)) ∷ h) =
    is_managed name id t || managed name id h
managed name id (_ ∷ h) = managed name id h

-- The name is one that the controller gives to the tunnel of the route with this UID.
abbrev pub is_named_for : Text → Text → Bool
is_named_for uid name =
    has_prefix name (bytes "kflared-private-") && has_suffix name (bytes "-" ++ uid)

-- The child is new, or labelled with the UID.
abbrev pub is_own : Text → Child → Bool
is_own uid c = c.uid == [] || label private_uid_label c.labels == uid

abbrev pub is_same : Child → Child → Bool
is_same d c = d.namespace == c.namespace && (d.name == c.name && d.uid == c.uid)

-- Some answer shows the object that is written, and it was new or the owner's.
abbrev pub loaded : Text → Child → History → Bool
loaded uid c [] = false
loaded uid c (event (load_child _ _) (ok d) ∷ h) = (is_same d c && is_own uid d) || loaded uid c h
loaded uid c (_ ∷ h) = loaded uid c h

abbrev pub comment_of : Text → Text
comment_of uid = bytes "kflared private route UID=" ++ uid

-- `name` is that of the tunnel that the object records when the run starts.
abbrev pub owned_only : Text → Text → Policy
owned_only uid name (delete_private_route _ id) h = seen (comment_of uid) id h
owned_only uid name (create_private_route _ _ _ comment) h = comment == comment_of uid
owned_only uid name (create_tunnel _ n) h = is_named_for uid n
owned_only uid name (delete_tunnel _ id) h = managed name id h
owned_only uid name (delete_child c) h = is_own uid c
owned_only uid name (save_child c) h = label private_uid_label c.labels == uid && loaded uid c h
owned_only uid name _ h = true
