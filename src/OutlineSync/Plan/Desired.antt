-- ===== src/OutlineSync/Plan/Desired.antt =====
-- Whom `desired_members` names.
use text.Mathlib.TextEquality.{eq_iff}
use krg_infra.Prelude.{
  String, Bool, true, false, not, ◌&&◌, ◌||◌, List, [], ◌∷◌, ◌≡◌, refl, arith, ◌==◌, text_eq,
  contains, lookup, map, any, Bool-cases, inl, inr, ◌∙◌,
}
use krg_infra.OutlineSync.Rows.{LdapGroup, AkUser, OutlineUser}
use krg_infra.OutlineSync.Plan.{
  Members, members_of, add_member, grant, grant_all, groups_of, is_member, is_barred,
  desired_members,
}

-- Whether a key is there.
abbrev has : Members → String → Bool
has members pk = contains (map (λ e. e.0) members) pk

left_out :
    (member barred listed same before here rest : Bool)
    → (not member || barred) ≡ true
    → (before || (here && rest))
      ≡ (before || (here && ((member && not barred && listed && same) || rest)))
left_out member barred listed same before here rest h = ground arith

granted :
    (member barred listed same before here rest : Bool)
    → (not member || barred) ≡ false
    → ((before || (here && (listed && same))) || (here && rest))
      ≡ (before || (here && ((member && not barred && listed && same) || rest)))
granted member barred listed same before here rest h = ground arith

module _ (pk uid : String) where
  add_member-has :
      (k user : String) (members : Members) → has (add_member k user members) pk ≡ has members pk
  unfolding add_member
  add_member-has k user [] = refl
  add_member-has k user ((j, users) ∷ members) = ground (arith, add_member-has k user members)

  add_member_lem :
      (k user : String) (members : Members)
      → contains (members_of (add_member k user members) pk) uid
        ≡ (contains (members_of members pk) uid || (has members pk && (k == pk && user == uid)))
  unfolding add_member
  add_member_lem k user [] = refl
  add_member_lem k user ((j, users) ∷ members) =
      ground (
        arith,
        add_member_lem k user members,
        eq_iff j k,
        eq_iff j pk,
        eq_iff k pk,
        eq_iff user uid,
      )

  grant-has :
      (user : String) (pks : List String) (members : Members)
      → has (grant user pks members) pk ≡ has members pk
  unfolding grant
  grant-has user [] members = refl
  grant-has user (k ∷ pks) members =
      grant-has user pks (add_member k user members) ∙ add_member-has k user members

  grant_lem :
      (user : String) (pks : List String) (members : Members)
      → contains (members_of (grant user pks members) pk) uid ≡ (
          contains (members_of members pk) uid
          || (has members pk && (contains pks pk && user == uid)))
  unfolding grant
  grant_lem user [] members = ground arith
  grant_lem user (k ∷ pks) members = ground (
    arith,
    grant_lem user pks (add_member k user members),
    add_member_lem k user members,
    add_member-has k user members,
  )

  -- Whether one user of Outline is made a member of this group under this id.
  abbrev pub grants : List (String × AkUser) → String × OutlineUser → Bool
  grants ak_by_email (address, user) =
      let ak = lookup address ak_by_email in
      is_member ak && not (is_barred user) && contains (groups_of ak) pk && user.id == uid

  grant_all_lem :
      (ak_by_email : List (String × AkUser)) (users : List (String × OutlineUser))
      (members : Members)
      → contains (members_of (grant_all ak_by_email users members) pk) uid ≡ (
          contains (members_of members pk) uid
          || (has members pk && any (grants ak_by_email) users))
  unfolding grant_all
  grant_all_lem ak_by_email [] members = ground arith
  grant_all_lem ak_by_email ((address, user) ∷ users) members =
      let ak = lookup address ak_by_email in
      elim (Bool-cases (not (is_member ak) || is_barred user)) [
        | inl out ↦ rw out (
            grant_all_lem ak_by_email users members
            ∙ left_out (is_member ak) (is_barred user) (contains (groups_of ak) pk) (user.id == uid)
                (contains (members_of members pk) uid) (has members pk)
                (any (grants ak_by_email) users) out)
        | inr entitled ↦ rw entitled (
            grant_all_lem ak_by_email users (grant user.id (groups_of ak) members)
            ∙ rw
                (grant_lem user.id (groups_of ak) members, grant-has user.id (groups_of ak) members)
                (granted (is_member ak) (is_barred user) (contains (groups_of ak) pk)
                  (user.id == uid) (contains (members_of members pk) uid) (has members pk)
                  (any (grants ak_by_email) users) entitled))
      ]

  empty-members :
      (groups : List (String × LdapGroup))
      → contains (members_of (map (λ (k, group). (k, [])) groups) pk) uid ≡ false
  empty-members [] = refl
  empty-members ((k, group) ∷ groups) = ground (arith, empty-members groups)

  empty-has :
      (groups : List (String × LdapGroup))
      → has (map (λ (k, group). (k, [])) groups) pk ≡ contains (map (λ e. e.0) groups) pk
  empty-has [] = refl
  empty-has ((k, group) ∷ groups) = ground (arith, empty-has groups)

  pub desired_members_lem :
      (groups : List (String × LdapGroup)) (ak_by_email : List (String × AkUser))
      (ol_by_email : List (String × OutlineUser))
      → contains (map (λ e. e.0) groups) pk ≡ true
      → contains (members_of (desired_members groups ak_by_email ol_by_email) pk) uid
        ≡ any (grants ak_by_email) ol_by_email
  unfolding desired_members
  desired_members_lem groups ak_by_email ol_by_email present =
      grant_all_lem ak_by_email ol_by_email _ ∙ rw (empty-members groups, empty-has groups, present)
