-- ===== src/OutlineSync/Reconcile/Tests.antt =====
-- A run that creates one group.
use krg_infra.Prelude.{ℕ, true, false, some, [], ◌∷◌}
use krg_infra.Effects.{ok}
use krg_infra.OutlineSync.Reconcile.{Servers, World, make_plan, reconcile}
use krg_infra.OutlineSync.Reconcile.Calls.{Changes, reconcile-Changes}

abbrev quiet_servers : Servers
quiet_servers = record {
  State = ℕ;
  source = λ s. (ok (record { pk = "s"; enabled = true; sync_groups = true }), s);
  status = λ s. (
    ok (record {
      is_running = some false;
      last_sync_status = some "done";
      last_successful_sync = some "1000";
      others = "";
    }),
    s,
  );
  links_page = λ page s. (
    ok (record {
      total_pages = 1;
      count = 1;
      has_next = false;
      results = record { pk = "l"; group = "1"; source = "s" } ∷ [];
    }),
    s,
  );
  groups_page = λ page s. (
    ok (record {
      total_pages = 1;
      count = 1;
      has_next = false;
      results = record { pk = "1"; name = "lab" } ∷ [];
    }),
    s,
  );
  users_page =
      λ page s. (ok (record { total_pages = 1; count = 0; has_next = false; results = [] }), s);
  outline_users_page = λ offset s. (ok (record { total = 0; batch = [] }), s);
  outline_groups_page = λ offset s. (ok (record { total = 0; batch = [] }), s);
  memberships_page = λ id offset s. (ok (record { total = 0; batch = [] }), s);
  call = λ operation s. (ok "new", s);
  now = λ s. 1000;
  parse_time = λ text. some 1000;
  casefold = λ text. text;
}

abbrev start : World quiet_servers
start = record { servers = 0; calls = [] }

reconcile-Changes_example :
    Changes quiet_servers true
      (make_plan quiet_servers 2 86400 start).0
      start
      (reconcile quiet_servers 2 86400 true start).1
reconcile-Changes_example = reconcile-Changes quiet_servers 2 86400 true start
