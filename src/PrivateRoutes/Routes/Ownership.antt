-- ===== src/PrivateRoutes/Routes/Ownership.antt =====
-- Ownership in `deleteRoute` and in the creation of `ensureRoute`.
use kflared.Base.{
  ◌≡◌, refl, ◌∙◌, arith, Bool, true, false, not, ◌&&◌, ◌||◌, Option, none, some, List, [], ◌∷◌,
  Text,
}
use kflared.Base.{text_eq, ◌==◌, Bool-cases, inl, inr}
use kflared.Errors.{ok}
use kflared.Api.{CloudflareTunnelPrivateRoute}
use kflared.Cloudflare.{PrivateRoute, Client, Tunnel}
use kflared.Platform.{Platform, event, History, State, ◌>>=◌, perform}
use kflared.Platform.{
  get_private_route, list_private_routes, create_private_route, delete_private_route,
}
use kflared.Platform.Keeps.{
  Inv, Keeps, continue-Inv, Keeps-current, Keeps-bind, Keeps-perform, Keeps-if, Keeps-call,
}
use kflared.PrivateRoutes.Status.{private_comment}
use kflared.PrivateRoutes.Status.Patches.{HasUid}
use kflared.PrivateRoutes.Owned.{listed, seen, owned_only, comment_of}
use kflared.PrivateRoutes.Routes.{
  note_created, create_route, private_owned, delete_listed, delete_found, delete_route,
}

abbrev Route : Type 0
Route = CloudflareTunnelPrivateRoute

pub owned-comment :
    (c : PrivateRoute) (route : Route)
    → private_owned c route ≡ true
    → c.comment ≡ private_comment route
unfolding private_owned
owned-comment c route h = ground arith

listed_head :
    (comment : Text) (c : PrivateRoute) (cs : List PrivateRoute)
    → c.comment ≡ comment
    → listed comment c.id (c ∷ cs) ≡ true
listed_head comment c cs e = ground arith

listed_tail :
    (comment id : Text) (c : PrivateRoute) (cs : List PrivateRoute)
    → listed comment id cs ≡ true
    → listed comment id (c ∷ cs) ≡ true
listed_tail comment id c cs e = ground arith

and_right : (a b : Bool) → (a && b) ≡ true → b ≡ true
and_right a b h = ground arith

seen_shown :
    (comment id : Text) (client : Client) (network : Text) (cs : List PrivateRoute) (h : History)
    → listed comment id cs ≡ true
    → seen comment id (event (list_private_routes client network) (ok cs) ∷ h) ≡ true
seen_shown comment id client network cs h e = rw e

seen_got :
    (comment : Text) (client : Client) (id : Text) (c : PrivateRoute) (h : History)
    → c.comment ≡ comment
    → seen comment c.id (event (get_private_route client id) (ok (some c)) ∷ h) ≡ true
seen_got comment client id c h e = ground arith

module _ (p : Platform) (uid name : Text) (J : Route → Type 0) where
  delete_listed-Inv :
      (client : Client) (route : Route) (cs : List PrivateRoute) (s : State Route)
      → private_comment route ≡ comment_of uid
      → ((id : Text) → listed (comment_of uid) id cs ≡ true → seen (comment_of uid) id s.log ≡ true)
      → Inv (owned_only uid name) J s
      → Inv (owned_only uid name) J (delete_listed p client route cs s).1
  unfolding delete_listed perform ◌>>=◌
  delete_listed-Inv client route [] s e shown i = i
  delete_listed-Inv client route (c ∷ cs) s e shown i =
      let rest = λ (id : Text) (l : listed (comment_of uid) id cs ≡ true).
        shown id (listed_tail (comment_of uid) id c cs l) in
      elim (Bool-cases (c.network == route.status.network && private_owned c route)) [
        | inr skip ↦ rw skip (delete_listed-Inv client route cs s e rest i)
        | inl owned ↦
            let mark = owned-comment c route (and_right _ _ owned) ∙ e in
            let t : State Route = record s {
              log =
                  event (delete_private_route client c.id)
                    (p.answer s.log (delete_private_route client c.id))
                  ∷ s.log;
            } in
            let j : Inv (owned_only uid name) J t = record {
              obeys = (shown c.id (listed_head (comment_of uid) c cs mark), i.obeys);
              holds = i.holds;
            } in
            rw owned (
              continue-Inv _ (λ _. delete_listed p client route cs) t j
                (λ _ _. delete_listed-Inv client route cs t e rest j))
      ]

pub comment-HasUid :
    (uid : Text) (route : Route) → HasUid uid route → private_comment route ≡ comment_of uid
unfolding private_comment
comment-HasUid uid route h = rw h

same_text : (s t : Text) → s ≡ t → (s == t) ≡ true
same_text s t e = ground arith

or_false : (a b : Bool) → (not a || b) ≡ false → a ≡ true
or_false a b h = ground arith

module _ (p : Platform) (uid name : Text) (J : Route → Type 0)
    (own : (o : Route) → J o → HasUid uid o) where
  delete_listed-Keeps :
      (client : Client) (route : Route) (network : Text)
      → HasUid uid route
      → Keeps
          (owned_only uid name)
          J
          (perform p (list_private_routes client network) >>= delete_listed p client route)
  delete_listed-Keeps client route network u =
      Keeps-call p (list_private_routes client network) (delete_listed p client route) (λ h. refl)
        λ h cs s e l i.
          delete_listed-Inv p uid name J client route cs s (comment-HasUid uid route u)
            (λ id m. rw l (seen_shown (comment_of uid) id client network cs h m)) i

  delete_found-Inv :
      (client : Client) (route : Route) (c : PrivateRoute) (h : History) (s : State Route)
      → HasUid uid route
      → private_owned c route ≡ true
      → s.log ≡ event (get_private_route client route.status.route_id) (ok (some c)) ∷ h
      → Inv (owned_only uid name) J s
      → Inv (owned_only uid name) J (perform p (delete_private_route client c.id) s).1
  unfolding perform
  delete_found-Inv client route c h s u o l i = record {
    obeys = (
      rw l (
          seen_got (comment_of uid) client route.status.route_id c h
            (owned-comment c route o ∙ comment-HasUid uid route u)),
      i.obeys,
    );
    holds = i.holds;
  }

  delete_found-all :
      (client : Client) (route : Route) (o : Option PrivateRoute) (h : History) (s : State Route)
      → HasUid uid route
      → s.log ≡ event (get_private_route client route.status.route_id) (ok o) ∷ h
      → Inv (owned_only uid name) J s
      → Inv (owned_only uid name) J (delete_found p client route o s).1
  unfolding delete_found ◌>>=◌
  delete_found-all client route none h s u l i = i
  delete_found-all client route (some c) h s u l i =
      elim (Bool-cases (not (private_owned c route) || not (c.network == route.status.network))) [
        | inl foreign ↦ rw foreign i
        | inr own ↦ rw own (delete_found-Inv client route c h s u (or_false _ _ own) l i)
      ]

  -- Only Cloudflare routes that were shown to carry this object's comment are deleted.
  pub delete_route-Keeps : (client : Client) → Keeps (owned_only uid name) J (delete_route p client)
  unfolding delete_route
  delete_route-Keeps client = Keeps-current _ λ route u.
      Keeps-if _ _ _ (λ _. delete_listed-Keeps client route route.status.network (own route u))
        (λ _.
          Keeps-call p (get_private_route client route.status.route_id)
            (delete_found p client route) (λ h. refl)
            λ h o s e l i. delete_found-all client route o h s (own route u) l i)

  -- A route is created with this object's comment.
  pub create_route-Keeps :
      (client : Client) (t : Tunnel) (n : Text)
      → ((route : Route) (o : Option PrivateRoute)
          → Keeps (owned_only uid name) J (note_created p t n route o))
      → Keeps (owned_only uid name) J (create_route p client t n)
  unfolding create_route
  create_route-Keeps client t n noted = Keeps-current _ λ route u.
      Keeps-bind _ _
        (Keeps-perform p (create_private_route client n t.id (private_comment route))
          (λ h. same_text _ _ (comment-HasUid uid route (own route u))))
        (noted route)
