-- ===== src/OutlineSync/Plan/Entitlement.antt =====
-- Who `plan_sync` takes for a member of a group of the directory.
use text.Mathlib.TextEquality.{eq_iff}
use krg_infra.Prelude.{
  String, true, false, not, ◌&&◌, Option, none, some, List, ◌≡◌, refl, ◌∙◌, arith, ◌==◌, text_eq,
  option_eq, contains, lookup, keep, any, Among, Among-All, Among-keep, keep-Among, Among-map,
  subst, any-Among, Among-any,
}
use krg_infra.OutlineSync.Rows.{AkUser, OutlineUser, address}
use krg_infra.OutlineSync.Rows.Index.{IsIndex, IsIndex-lookup, IsIndex-found}
use krg_infra.OutlineSync.Plan.{is_member, is_barred, groups_of}
use krg_infra.OutlineSync.Plan.Desired.{grants}

-- Whether this id is that of a user of Outline who belongs into a group of the directory: neither
-- suspended nor a guest, with the address of an active internal user of Authentik in that group.
pub record Entitled (casefold : String → String) (ak_users : List AkUser)
    (outline_users : List OutlineUser) (pk uid : String) : Type 0 where
  pub user : OutlineUser
  pub ak : AkUser
  pub user_there : Among user outline_users
  pub ak_there : Among ak ak_users
  pub same_address : address casefold ak.email ≡ address casefold user.email
  pub same_id : user.id ≡ uid
  pub not_barred : is_barred user ≡ false
  pub member : is_member (some ak) ≡ true
  pub in_group : contains ak.groups pk ≡ true

module _ (casefold : String → String) (ak_users : List AkUser) (outline_users : List OutlineUser)
    (ak_by_email : List (String × AkUser)) (ol_by_email : List (String × OutlineUser))
    (aks : IsIndex
      (λ (u : AkUser). address casefold u.email)
      (keep (λ u. not (address casefold u.email == "")) ak_users)
      ak_by_email)
    (ols : IsIndex (λ (u : OutlineUser). address casefold u.email) outline_users ol_by_email)
    (pk uid : String) where
  entry-Entitled :
      (k : String) (user : OutlineUser) (found : Option AkUser)
      → lookup k ak_by_email ≡ found
      → Among (k, user) ol_by_email
      → (is_member found && not (is_barred user) && contains (groups_of found) pk && user.id == uid)
        ≡ true
      → Entitled casefold ak_users outline_users pk uid
  entry-Entitled k user none e among h = ground arith
  entry-Entitled k user (some ak) e among h =
      let (there, at_key) =
        IsIndex-lookup (λ (u : AkUser). address casefold u.email) _ ak_by_email k ak aks e in
      let under = (Among-All _ ol_by_email (k, user) ols.under_keys among).0 in
      record {
        user = user;
        ak = ak;
        user_there =
            subst (Among user) ols.same_rows (Among-map (λ e. e.1) ol_by_email (k, user) among);
        ak_there =
            (Among-keep (λ (u : AkUser). not (address casefold u.email == "")) ak_users ak there).0;
        same_address = at_key ∙ under;
        same_id = (eq_iff user.id uid).0 (ground arith);
        not_barred = ground arith;
        member = ground arith;
        in_group = ground arith;
      }

  pub granted-Entitled :
      any (grants pk uid ak_by_email) ol_by_email ≡ true
      → Entitled casefold ak_users outline_users pk uid
  granted-Entitled h =
      let ((k, user), among, granted) = any-Among (grants pk uid ak_by_email) ol_by_email h in
      entry-Entitled k user (lookup k ak_by_email) refl among granted

  grants_entitled :
      (user : OutlineUser) (ak : AkUser) (found : Option AkUser)
      → found ≡ some ak
      → is_barred user ≡ false
      → is_member (some ak) ≡ true
      → contains ak.groups pk ≡ true
      → user.id ≡ uid
      → (is_member found && not (is_barred user) && contains (groups_of found) pk && user.id == uid)
        ≡ true
  grants_entitled user ak found e free member listed same =
      rw e (ground (arith, eq_iff user.id uid))

  pub Entitled-granted :
      Entitled casefold ak_users outline_users pk uid
      → any (grants pk uid ak_by_email) ol_by_email ≡ true
  Entitled-granted h =
      let key = address casefold h.user.email in
      let (_, among) =
        IsIndex-found (λ (u : OutlineUser). address casefold u.email) outline_users ol_by_email
          h.user ols h.user_there in
      let not_blank = (Among-All _ ol_by_email (key, h.user) ols.under_keys among).1 in
      let blank : not (address casefold h.ak.email == "") ≡ true =
        rw h.same_address (ground arith) in
      let (found, _) =
        IsIndex-found (λ (u : AkUser). address casefold u.email) _ ak_by_email h.ak aks
          (keep-Among (λ (u : AkUser). not (address casefold u.email == "")) ak_users h.ak
            h.ak_there blank) in
      let found' : lookup key ak_by_email ≡ some h.ak = rw (← h.same_address) found in
      Among-any (grants pk uid ak_by_email) ol_by_email (key, h.user) among
        (grants_entitled h.user h.ak (lookup key ak_by_email) found' h.not_barred h.member
          h.in_group h.same_id)
