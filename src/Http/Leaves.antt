-- ===== src/Http/Leaves.antt =====
-- The routes that are open to everyone leave the protected rows alone.
use x_ui_site.Prelude.{String, Bool, true, false, Option, none, some, if◌then◌else◌, ◌==◌, ◌||◌}
use x_ui_site.Prelude.Text.{parse_id}
use x_ui_site.Db.Errors.{Error, Result, ok, err}
use x_ui_site.Db.Session.{World, M}
use x_ui_site.Db.Frame.{Views, Keeps}
use x_ui_site.Security.{Crypto}
use x_ui_site.Http.{
  Json, Request, Response, Handler, respond, only_post, with_body, then_field, is_post, by_body,
}
use x_ui_site.Http.Frame.{
  Protected, protected, register-Keeps, login-Keeps, create_vendor-Keeps, list_by_owner-Keeps,
  balance-Keeps, provision_service-Keeps, suspend-Keeps, resume-Keeps, by_id-Keeps,
  list_by_user-Keeps,
}
use x_ui_site.Http.Api.{
  credentials, new_vendor, register_route, login_route, vendor_create, vendor_list, wallet_balance,
}
use x_ui_site.Http.Proxies.{
  provision_body, with_defaults, service_body, provision_route, suspend_route, resume_route,
}
use x_ui_site.Http.Proxies
use x_ui_site.Repository.Proxies as Stored
use x_ui_site.Repository.Users.{list_by_owner}
use x_ui_site.Repository.Wallets.{balance}
use x_ui_site.Repository.Panels.{TokenCipher}

-- The rows keep their view through a handler.
pub record Leaves (h : Handler) : Type 0 where
  pub leaves :
      (r : Request) (v : Protected) (w : World) → Views protected v w → Views protected v (h r w).1

respond-Views :
    {A : Type 0} (f : Error → Response) (g : A → Response) (v : Protected) (x : Result A × World)
    → Views protected v x.1
    → Views protected v (respond f g x).1
respond-Views f g v (ok a, w) i = i
respond-Views f g v (err e, w) i = i

called :
    {A : Type 0} (f : Error → Response) (g : A → Response) (m : M A)
    → Keeps protected m
    → Leaves (λ r w. respond f g (m w))
called f g m h = record { leaves = λ r v w i. respond-Views f g v (m w) (h.keeps v w i) }

if-Views :
    (v : Protected) (b : Bool) (x y : Response × World)
    → Views protected v x.1
    → Views protected v y.1
    → Views protected v (if b then x else y).1
if-Views v true x y h k = h
if-Views v false x y h k = k

only_post-Leaves : (h : Handler) → Leaves h → Leaves (only_post h)
only_post-Leaves h l = record {
  leaves = λ r v w i. if-Views v (is_post r) _ _ (l.leaves r v w i) i;
}

with_body-Leaves :
    {A : Type 0} (decode : (String → Json) → Option A) (h : A → Handler)
    → ((a : A) → Leaves (h a))
    → Leaves (with_body decode h)
with_body-Leaves {A} decode h l = record {
  leaves = λ r v w i. by r v w i (then_field r.body decode);
}
  where
    by :
        (r : Request) (v : Protected) (w : World)
        → Views protected v w
        → (o : Option A) → Views protected v (by_body h o r w).1
    by r v w i none = i
    by r v w i (some a) = (l a).leaves r v w i

module _ (k : Crypto) (secret : String) where
  pub register_route-Leaves : Leaves (register_route k secret)
  unfolding register_route
  register_route-Leaves =
      with_body-Leaves credentials _ λ b. called _ _ _ (register-Keeps k b.email b.password)

  pub login_route-Leaves : Leaves (login_route k secret)
  unfolding login_route
  login_route-Leaves =
      with_body-Leaves credentials _ λ b. called _ _ _ (login-Keeps k secret b.email b.password)

pub vendor_create-Leaves : Leaves vendor_create
unfolding vendor_create
vendor_create-Leaves =
    with_body-Leaves new_vendor _ λ b. called _ _ _ (create_vendor-Keeps b.owner_id b.name b.slug)

pub vendor_list-Leaves : Leaves vendor_list
unfolding vendor_list
vendor_list-Leaves = record {
  leaves = λ r v w i.
      respond-Views _ _ v (list_by_owner (parse_id (r.query "owner_id")) w)
        ((list_by_owner-Keeps _).keeps v w i);
}

pub wallet_balance-Leaves : Leaves wallet_balance
unfolding wallet_balance
wallet_balance-Leaves = record {
  leaves = λ r v w i.
      respond-Views _ _ v (balance (parse_id (r.query "user_id")) w)
        ((balance-Keeps _).keeps v w i);
}

pub provision_route-Leaves : (cipher : TokenCipher) → Leaves (provision_route cipher)
unfolding provision_route
provision_route-Leaves cipher = only_post-Leaves _ (
    with_body-Leaves provision_body _
      λ b. called _ _ _ (provision_service-Keeps cipher (with_defaults b)))

pub get-Leaves : Leaves Proxies.get
unfolding Proxies.get
get-Leaves = record {
  leaves = λ r v w i.
      let vendor_id = parse_id (r.query "vendor_id") in
      let service_id = parse_id (r.query "service_id") in
      if-Views v (vendor_id == 0 || service_id == 0) _ _ i (
        respond-Views _ _ v (Stored.by_id vendor_id service_id w)
          ((by_id-Keeps vendor_id service_id).keeps v w i));
}

pub list-Leaves : Leaves Proxies.list
unfolding Proxies.list
list-Leaves = record {
  leaves = λ r v w i.
      let vendor_id = parse_id (r.query "vendor_id") in
      let user_id = parse_id (r.query "user_id") in
      if-Views v (vendor_id == 0 || user_id == 0) _ _ i (
        respond-Views _ _ v (Stored.list_by_user vendor_id user_id w)
          ((list_by_user-Keeps vendor_id user_id).keeps v w i));
}

pub suspend_route-Leaves : Leaves suspend_route
unfolding suspend_route
suspend_route-Leaves =
    only_post-Leaves _ (with_body-Leaves service_body _ λ b. called _ _ _ (suspend-Keeps b.0 b.1))

pub resume_route-Leaves : Leaves resume_route
unfolding resume_route
resume_route-Leaves =
    only_post-Leaves _ (with_body-Leaves service_body _ λ b. called _ _ _ (resume-Keeps b.0 b.1))
