-- ===== src/OutlineSync/Plan/Convergence.antt =====
-- `plan_sync` brings the members of every group of the directory to the desired ones.
use krg_infra.Prelude.{
  String, true, false, List, [], ◌∷◌, ◌++◌, ◌≡◌, refl, arith, ◌==◌, text_eq, contains, All,
  All-append, UniqueKeys, beq_refl,
}
use krg_infra.Effects.Fallible.{Gives, Gives-bind}
use krg_infra.OutlineSync.Rows.{LdapGroup, OutlineGroup}
use krg_infra.OutlineSync.Plan.{Operation, Members, members_of, plan_groups}
use krg_infra.OutlineSync.Plan.Replay.{group_of, replay, replay-append, replay-Elsewhere, Elsewhere}
use krg_infra.OutlineSync.Plan.Rounds.{
  Location, new, found, Round, Only, RealIds, id_of, plan_group-Round,
}
use krg_infra.OutlineSync.Plan.Disjoint.{keys_of, Site, to_create, to_use, apart_sym, located_apart}

-- The calls of a round are elsewhere for every group but its own.
Elsewhere-of_Only :
    (id other : String) (operations : List Operation)
    → (id == other) ≡ false
    → Only id operations
    → Elsewhere other operations
Elsewhere-of_Only id other [] apart only = tt
Elsewhere-of_Only id other (operation ∷ operations) apart (here, only) =
    (rw here apart, Elsewhere-of_Only id other operations apart only)

module _ (prefix : String) where
  Site-weaken :
      (pk : String) (keys used used1 used' : List String) (id : String)
      → ((x : String) → contains used x ≡ true → contains used1 x ≡ true)
      → Site prefix keys used1 used' id
      → Site prefix (pk ∷ keys) used used' id
  Site-weaken pk keys used used1 used' id grown (to_create pk' present e) =
      to_create pk' (ground arith) e
  Site-weaken pk keys used used1 used' id grown (to_use real unused later) =
      to_use real (ground (arith, grown id)) later

  module _ (by_name by_external : List (String × OutlineGroup))
      (desired memberships : Members) where
    -- The planned calls give the group of the directory its desired members.
    abbrev pub Reaches : List Operation → String × LdapGroup → Type 0
    Reaches operations (pk, source) =
        let id = id_of prefix by_name by_external desired memberships pk source in
        (user : String)
        → replay id user operations (contains (members_of memberships id) user)
          ≡ contains (members_of desired pk) user

    pub record Converged (groups : List (String × LdapGroup)) (used : List String)
        (operations : List Operation) (used' : List String) : Type 0 where
      pub grown : (x : String) → contains used x ≡ true → contains used' x ≡ true
      pub sites :
          All (λ operation. Site prefix (keys_of groups) used used' (group_of operation)) operations
      pub located :
          All
            (λ (pk, source).
              Site prefix
                (keys_of groups)
                used
                used'
                (id_of prefix by_name by_external desired memberships pk source))
            groups
      pub goals : All (Reaches operations) groups

    -- Where a round finds its group, as a site of all the rounds from it on.
    Location-Site :
        (pk id : String) (keys used used1 used' : List String)
        → ((x : String) → contains used1 x ≡ true → contains used' x ≡ true)
        → Location prefix pk id used used1
        → Site prefix (pk ∷ keys) used used' id
    Location-Site pk id keys used used1 used' grown (new created same) =
        to_create pk (rw (beq_refl pk) refl) created
    Location-Site pk id keys used used1 used' grown (found real unused same) =
        to_use real unused (grown id (rw (same, beq_refl id) refl))

    Location-grown :
        (pk id : String) (used used1 : List String) (x : String)
        → Location prefix pk id used used1
        → contains used x ≡ true
        → contains used1 x ≡ true
    Location-grown pk id used used1 x (new created same) h = rw same h
    Location-grown pk id used used1 x (found real unused same) h = rw same (ground arith)

    Only-sites :
        (id : String) (keys used used' : List String) (operations : List Operation)
        → Site prefix keys used used' id
        → Only id operations
        → All (λ operation. Site prefix keys used used' (group_of operation)) operations
    Only-sites id keys used used' [] site only = tt
    Only-sites id keys used used' (operation ∷ operations) site (here, only) =
        (rw here site, Only-sites id keys used used' operations site only)

    sites-Elsewhere :
        (pk id : String) (keys used used1 used' : List String) (operations : List Operation)
        → Location prefix pk id used used1
        → contains keys pk ≡ false
        → All (λ operation. Site prefix keys used1 used' (group_of operation)) operations
        → Elsewhere id operations
    sites-Elsewhere pk id keys used used1 used' [] location absent sites = tt
    sites-Elsewhere pk id keys used used1 used' (operation ∷ operations) location absent
          (site, sites) =
        (
          apart_sym id (group_of operation) (
              located_apart prefix pk id keys used used1 used' (group_of operation) location absent
                site),
          sites-Elsewhere pk id keys used used1 used' operations location absent sites,
        )

    later_goals :
        (pk id : String) (source : LdapGroup) (keys used used1 used' : List String)
        (first operations : List Operation)
        → Location prefix pk id used used1
        → contains keys pk ≡ false
        → Only id first
        → (groups : List (String × LdapGroup))
        → All
            (λ (pk', source').
              Site prefix keys used1 used'
                (id_of prefix by_name by_external desired memberships pk' source'))
            groups
        → All (Reaches operations) groups
        → All (Reaches (first ++ operations)) groups
    later_goals pk id source keys used used1 used' first operations location absent only [] sites
          goals =
        tt
    later_goals pk id source keys used used1 used' first operations location absent only
          ((pk', source') ∷ groups) (site, sites) (goal, goals) =
        let id' = id_of prefix by_name by_external desired memberships pk' source' in
        let apart = located_apart prefix pk id keys used used1 used' id' location absent site in
        (
          (λ user.
              rw
                (
                  replay-append id' user first operations
                      (contains (members_of memberships id') user),
                  replay-Elsewhere id' user first (contains (members_of memberships id') user)
                      (Elsewhere-of_Only id id' first apart only),
                )
                (goal user)),
          later_goals pk id source keys used used1 used' first operations location absent only
              groups sites goals,
        )

    weaken_sites :
        {A : Type 0} (site : A → String) (pk : String) (keys used used1 used' : List String)
        → ((x : String) → contains used x ≡ true → contains used1 x ≡ true)
        → (xs : List A) → All (λ x. Site prefix keys used1 used' (site x)) xs
        → All (λ x. Site prefix (pk ∷ keys) used used' (site x)) xs
    weaken_sites site pk keys used used1 used' grown [] h = tt
    weaken_sites site pk keys used used1 used' grown (x ∷ xs) h = (
      Site-weaken pk keys used used1 used' (site x) grown h.0,
      weaken_sites site pk keys used used1 used' grown xs h.1,
    )

    Converged-cons :
        (pk : String) (source : LdapGroup) (groups : List (String × LdapGroup))
        (used used1 used' : List String) (first operations : List Operation)
        → contains (keys_of groups) pk ≡ false
        → Round prefix desired memberships pk
            (id_of prefix by_name by_external desired memberships pk source)
            used
            first
            used1
        → Converged groups used1 operations used'
        → Converged ((pk, source) ∷ groups) used (first ++ operations) used'
    Converged-cons pk source groups used used1 used' first operations absent round later =
        let id = id_of prefix by_name by_external desired memberships pk source in
        let keys = keys_of groups in
        let grown = λ (x : String) (h : contains used x ≡ true).
          Location-grown pk id used used1 x round.located h in
        let here = Location-Site pk id keys used used1 used' later.grown round.located in
        record {
          grown = λ x h. later.grown x (grown x h);
          sites =
              All-append _ first operations
                (Only-sites id (pk ∷ keys) used used' first here round.only)
                (weaken_sites group_of pk keys used used1 used' grown operations later.sites);
          located = (
            here,
            weaken_sites
                (λ (pk', source'). id_of prefix by_name by_external desired memberships pk' source')
                pk keys used used1 used' grown groups later.located,
          );
          goals = (
            (λ user.
                rw
                  (
                    replay-append id user first operations
                        (contains (members_of memberships id) user),
                    replay-Elsewhere id user operations
                        (replay id user first (contains (members_of memberships id) user))
                        (sites-Elsewhere pk id keys used used1 used' operations round.located absent
                          later.sites),
                  )
                  (round.reached user)),
            later_goals pk id source keys used used1 used' first operations round.located absent
                round.only groups later.located later.goals,
          );
        }

    module _ (real_names : RealIds prefix by_name by_external desired memberships by_name)
        (real_externals : RealIds prefix by_name by_external desired memberships by_external) where
      pub plan_groups-Converged :
          (groups : List (String × LdapGroup)) (used : List String)
          → UniqueKeys groups
          → Gives
              (λ (operations, used'). Converged groups used operations used')
              (plan_groups prefix by_name by_external desired memberships groups used)
      unfolding plan_groups
      plan_groups-Converged [] used unique = record {
        grown = λ x h. h;
        sites = tt;
        located = tt;
        goals = tt;
      }
      plan_groups-Converged ((pk, source) ∷ groups) used unique =
          Gives-bind _ _ _ _
            (plan_group-Round prefix by_name by_external desired memberships real_names
              real_externals pk source used)
            (λ (first, used1) round.
              Gives-bind _ _ _ _ (plan_groups-Converged groups used1 unique.1)
                (λ (operations, used') later.
                  Converged-cons pk source groups used used1 used' first operations unique.0 round
                    later))
