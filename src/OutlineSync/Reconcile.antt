-- ===== src/OutlineSync/Reconcile.antt =====
-- `assert_sync_healthy`, `apply_plan` and `reconcile` of sync.py.
pub mod Calls
mod Tests
use text.Mathlib.Text.{starts_with}
use krg_infra.Prelude.{
  ℕ, zero, suc, ◌+◌, String, ◌<>◌, Bool, true, false, not, ◌&&◌, ◌||◌, Option, none, some, List, [],
  ◌∷◌, ◌==◌, ltb, if◌then◌else◌, nat_eq, text_eq, bool_eq, option_eq, list_eq, contains, keep, all,
  map, lookup,
}
use krg_infra.Effects.{Result, ok, raised, Exec, pure, throw, lift, gets, ◌>>=◌, ◌>>◌}
use krg_infra.OutlineSync.Rows.{SyncError, LdapGroup, AkUser, OutlineUser, OutlineGroup}
use krg_infra.OutlineSync.Pages.{
  ReadError, AuthentikPage, OutlinePage, authentik_list, outline_list,
}
use krg_infra.OutlineSync.Plan.{
  Operation, create, update, add_user, remove_user, Members, is_managed, plan_sync,
}

-- Why a run ends without a result: a read that failed, a snapshot that was refused, or a SyncError
-- of `reconcile` itself by its message.
pub data Stop : Type 0 where
  read : ReadError → Stop
  refused : SyncError → Stop
  source_disabled sync_running sync_failed no_timestamp stale no_groups unreadable_groups
        sync_changed :
      Stop

-- The LDAP source, and what its synchronisation reports. The parts of the report that the code does
-- not look at by themselves are `others`: it compares whole reports.
pub record Source : Type 0 where
  pub pk : String
  pub enabled : Bool
  pub sync_groups : Bool

pub record Status : Type 0 where
  pub is_running : Option Bool
  pub last_sync_status : Option String
  pub last_successful_sync : Option String
  pub others : String

pub record Link : Type 0 where
  pub pk : String
  pub group : String
  pub source : String

pub record Membership : Type 0 where
  pub id : String
  pub user_id : String

-- The two servers, behind the HTTP client. `parse_time` is `datetime.fromisoformat` of a
-- text with its "Z" replaced, in seconds,
-- and `now` the clock; `call` is one of Outline's changing methods, with the id of the group that it
-- creates. A path or a method is spelled out by the field.
pub record Servers : Type 1 where
  pub State : Type 0
  pub source : State → Result ReadError Source × State
  pub status : State → Result ReadError Status × State
  pub links_page : ℕ → State → Result ReadError (AuthentikPage Link) × State
  pub groups_page : ℕ → State → Result ReadError (AuthentikPage LdapGroup) × State
  pub users_page : ℕ → State → Result ReadError (AuthentikPage AkUser) × State
  pub outline_users_page : ℕ → State → Result ReadError (OutlinePage OutlineUser) × State
  pub outline_groups_page : ℕ → State → Result ReadError (OutlinePage OutlineGroup) × State
  pub memberships_page : String → ℕ → State → Result ReadError (OutlinePage Membership) × State
  pub call : Operation → State → Result ReadError String × State
  pub now : State → ℕ
  pub parse_time : String → Option ℕ
  pub casefold : String → String

-- The servers' state, and the changing calls that Outline has been sent, the last first.
pub record World (V : Servers) : Type 0 where
  pub servers : V.State
  pub calls : List Operation

abbrev pub Sync : Servers → Type 0 → Type 0
Sync V A = Exec Stop (World V) A

abbrev is_false : Option Bool → Bool
is_false (some false) = true
is_false _ = false

-- Whether a status is that of a recent successful synchronisation, at a time and for an age in
-- seconds.
unfoldable pub assert_sync_healthy :
    (parse_time : String → Option ℕ) → (now max_age : ℕ) → Status → Result Stop (Unit {0})
assert_sync_healthy parse_time now max_age status =
    if not (is_false status.is_running)
    then raised sync_running
    else if not (status.last_sync_status == some "done" || status.last_sync_status == some "info")
    then raised sync_failed
    else elim status.last_successful_sync [
      | none ↦ raised no_timestamp
      | some text ↦ elim (parse_time text) [
        | none ↦ raised no_timestamp
        | some last ↦
            if ltb (now + 300) last || ltb (last + max_age) now then raised stale else ok tt
      ]
    ]

-- `before == after` of two statuses
abbrev pub same_status : Status → Status → Bool
same_status a b =
    a.is_running == b.is_running
    && a.last_sync_status == b.last_sync_status
    && a.last_successful_sync == b.last_successful_sync
    && a.others == b.others

abbrev or_same : List (String × String) → String → String
or_same created id = elim (lookup id created) [ none ↦ id | some id' ↦ id' ]

-- A call with its group's symbolic id replaced by the id that the server gave.
abbrev pub resolve : List (String × String) → Operation → Operation
resolve created (create name external_id) = create name external_id
resolve created (update id name external_id) = update (or_same created id) name external_id
resolve created (add_user id user) = add_user (or_same created id) user
resolve created (remove_user id user) = remove_user (or_same created id) user

abbrev pub note_created : Operation → String → List (String × String) → List (String × String)
note_created (create name external_id) id created = (external_id, id) ∷ created
note_created _ id created = created

abbrev as_stop : {A : Type 0} → Result ReadError A → Result Stop A
as_stop (ok a) = ok a
as_stop (raised e) = raised (read e)

abbrev as_refused : {A : Type 0} → Result SyncError A → Result Stop A
as_refused (ok a) = ok a
as_refused (raised e) = raised (refused e)

module _ (V : Servers) where
  -- A read asks the servers and sends no changing call.
  unfoldable pub reading : {A : Type 0} → Exec ReadError V.State A → Sync V A
  reading m w =
      let (r, servers) = m w.servers in (as_stop r, record { servers = servers; calls = w.calls })

  unfoldable pub send : Operation → Sync V String
  send operation w =
      let (r, servers) = V.call operation w.servers in
      (as_stop r, record { servers = servers; calls = operation ∷ w.calls })

  pub apply_from : List (String × String) → List Operation → Sync V (Unit {0})
  apply_from created [] = pure tt
  apply_from created (operation ∷ operations) = do
    id ← send (resolve created operation)
    apply_from (note_created operation id created) operations

  unfoldable pub apply_plan : List Operation → Sync V (Unit {0})
  unfolding apply_from
  apply_plan operations = apply_from [] operations

  -- `assert_sync_healthy` of a status, with the clock read.
  pub check_status : ℕ → Status → Sync V (Unit {0})
  check_status max_age status = do
    now ← gets (λ w. V.now w.servers)
    lift (assert_sync_healthy V.parse_time now max_age status)

  -- The memberships of the groups that may be changed.
  pub read_memberships :
      (fuel : ℕ) → (relevant : List String) → String → List OutlineGroup → Sync V Members
  read_memberships fuel relevant prefix [] = pure []
  read_memberships fuel relevant prefix (group ∷ groups) =
      if contains relevant group.name || is_managed prefix group
      then (do
        rows ← reading (outline_list (λ (m : Membership). m.id) (V.memberships_page group.id) fuel)
        rest ← read_memberships fuel relevant prefix groups
        pure ((group.id, map (λ (m : Membership). m.user_id) rows) ∷ rest))
      else read_memberships fuel relevant prefix groups

  -- The rest of what is read, once the directory's groups are known, and the plan for it.
  pub plan_for : (fuel max_age : ℕ) → String → Status → List LdapGroup → Sync V (List Operation)
  plan_for fuel max_age source_id before ldap_groups = do
    users ← reading (authentik_list (λ (u : AkUser). u.pk) V.users_page fuel)
    ol_users ← reading (outline_list (λ (u : OutlineUser). u.id) V.outline_users_page fuel)
    ol_groups ← reading (outline_list (λ (g : OutlineGroup). g.id) V.outline_groups_page fuel)
    memberships ←
        read_memberships fuel (map (λ (g : LdapGroup). g.name) ldap_groups)
          ("krg-ldap:" <> source_id <> ":") ol_groups
    after ← reading V.status
    check_status max_age after
    if not (same_status before after)
        then throw sync_changed
        else lift (
            as_refused
              (plan_sync V.casefold source_id ldap_groups users ol_groups ol_users memberships))

  -- Everything that is read of the servers, and the plan for it.
  unfoldable pub make_plan : (fuel max_age : ℕ) → Sync V (List Operation)
  unfolding check_status read_memberships plan_for
  make_plan fuel max_age = do
    source ← reading V.source
    if not source.enabled || not source.sync_groups then throw source_disabled else do
      before ← reading V.status
      check_status max_age before
      links ← reading (authentik_list (λ (l : Link). l.pk) V.links_page fuel)
      let group_ids = map (λ (l : Link). l.group) (keep (λ l. l.source == source.pk) links)
      if group_ids == [] then throw no_groups else do
        groups ← reading (authentik_list (λ (g : LdapGroup). g.pk) V.groups_page fuel)
        let ldap_groups = keep (λ (g : LdapGroup). contains group_ids g.pk) groups
        if not (all (contains (map (λ (g : LdapGroup). g.pk) ldap_groups)) group_ids)
            then throw unreadable_groups
            else plan_for fuel max_age source.pk before ldap_groups

  unfoldable pub reconcile : (fuel max_age : ℕ) → (apply : Bool) → Sync V (List Operation)
  unfolding make_plan
  reconcile fuel max_age apply = do
    operations ← make_plan fuel max_age
    if apply then (do apply_plan operations; pure operations) else pure operations
