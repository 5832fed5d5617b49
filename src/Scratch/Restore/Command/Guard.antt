-- ===== src/Scratch/Restore/Command/Guard.antt =====
-- A whole run of scratch-restore.py with the areas that it has read.
use krg_infra.Prelude.{
  ℕ, zero, suc, String, ◌<>◌, Bool, true, List, [], ◌∷◌, Option, none, some, ◌≢◌, refl,
}
use krg_infra.Effects.Triple.{Keeps, Keeps-bind, Keeps-if, Keeps-pure, Keeps-throw}
use krg_infra.Scratch.Os.{Event, is_link, is_dir, World, Host, Run}
use krg_infra.Scratch.Paths.{join}
use krg_infra.Scratch.Steps.{Traced}
use krg_infra.Scratch.Trace.{Guarded, Guarded-IsClosed, IsClosed, Keeps-perform}
use krg_infra.Scratch.Copying.Quiet.{quiet_rules}
use krg_infra.Scratch.Restore.{Areas}
use krg_infra.Scratch.Restore.Restored.{IsRestoring}
use krg_infra.Scratch.Restore.Safety.{Keeps-restore_one}
use krg_infra.Scratch.Restore.Command.{
  Args, restore_links, visit_dirs, visit_tree, restore_tree, restore_file, restore_path,
  restore_paths, restore_all,
}

module _ (H : Host) {p : String} {T : List Event → Type 0} (closed : IsClosed p T)
    (restore : String → Run H Bool) (restores : (q : String) → Keeps (Traced H T) (restore q)) where
  Keeps-restore_links :
      (dirpath : String) (names : List String) (counts : ℕ × ℕ)
      → Keeps (Traced H T) (restore_links H restore dirpath names counts)
  unfolding restore_links
  Keeps-restore_links dirpath [] counts = Keeps-pure counts
  Keeps-restore_links dirpath (name ∷ names) counts =
      Keeps-bind _ _ (Keeps-perform H closed (is_link (join dirpath name)) (λ r. refl)) λ linked.
        Keeps-bind _ _
          (Keeps-if linked _ _ (Keeps-bind _ _ (restores (join dirpath name)) λ done. Keeps-pure _)
            (Keeps-pure counts))
          (Keeps-restore_links dirpath names)

  module _ (visit : String → ℕ × ℕ → Run H (ℕ × ℕ))
      (visits : (q : String) (counts : ℕ × ℕ) → Keeps (Traced H T) (visit q counts)) where
    Keeps-visit_dirs :
        (dirpath : String) (dirs : List String) (counts : ℕ × ℕ)
        → Keeps (Traced H T) (visit_dirs H restore visit dirpath dirs counts)
    unfolding visit_dirs
    Keeps-visit_dirs dirpath [] counts = Keeps-pure counts
    Keeps-visit_dirs dirpath (d ∷ dirs) counts =
        Keeps-bind _ _ (Keeps-perform H closed (is_link (join dirpath d)) (λ r. refl)) λ linked.
          Keeps-bind _ _ (Keeps-if linked _ _ (Keeps-pure counts) (visits (join dirpath d) counts))
            (Keeps-visit_dirs dirpath dirs)

    Keeps-visit_tree :
        (root : String) (counts : ℕ × ℕ) (listing : Option (List String × List String))
        → Keeps (Traced H T) (visit_tree H restore visit root counts listing)
    unfolding visit_tree
    Keeps-visit_tree root counts none = Keeps-pure counts
    Keeps-visit_tree root counts (some (dirs, files)) =
        Keeps-bind _ _ (Keeps-restore_links root files counts) (Keeps-visit_dirs root dirs)

  Keeps-restore_tree :
      (depth : ℕ) (root : String) (counts : ℕ × ℕ)
      → Keeps (Traced H T) (restore_tree H restore depth root counts)
  unfolding restore_tree
  Keeps-restore_tree zero root counts = Keeps-throw _
  Keeps-restore_tree (suc depth) root counts =
      Keeps-bind _ _ (search quiet_rules)
        (Keeps-visit_tree (restore_tree H restore depth) (Keeps-restore_tree depth) root counts)

  Keeps-restore_file :
      (q : String) (counts : ℕ × ℕ) → Keeps (Traced H T) (restore_file H restore q counts)
  unfolding restore_file
  Keeps-restore_file q counts = Keeps-bind _ _ (restores q) λ done.
      Keeps-if done _ _ (Keeps-pure _)
        (Keeps-bind _ _ (Keeps-perform H closed (is_link q) (λ r. refl)) λ linked. Keeps-pure _)

  Keeps-restore_path :
      (depth : ℕ) (q : String) (counts : ℕ × ℕ)
      → Keeps (Traced H T) (restore_path H restore depth q counts)
  unfolding restore_path
  Keeps-restore_path depth q counts =
      Keeps-bind _ _ (Keeps-perform H closed (is_dir q) (λ r. refl)) λ (directory : Bool).
        Keeps-bind _ _
          (Keeps-if directory _ _ (Keeps-perform H closed (is_link q) (λ r. refl))
            (Keeps-pure true))
          λ linked. Keeps-if _ _ _ (Keeps-restore_tree depth q counts) (Keeps-restore_file q counts)

  Keeps-restore_paths :
      (depth : ℕ) (paths : List String) (counts : ℕ × ℕ)
      → Keeps (Traced H T) (restore_paths H restore depth paths counts)
  unfolding restore_paths
  Keeps-restore_paths depth [] counts = Keeps-pure counts
  Keeps-restore_paths depth (q ∷ paths) counts =
      Keeps-bind _ _ (Keeps-restore_path depth q counts) (Keeps-restore_paths depth paths)

-- In a whole run of scratch-restore.py with the areas that it has read, however it ends and whatever
-- the system answers, what a path names is destroyed only in two ways, unless the path ends like
-- that of a temporary file. It is replaced by a temporary file that was synced, after it was read
-- back with the hash and the length of what had been read of a file of the cold area. Or the path
-- lies in the cold area and is removed after such a copy of it was put in the place of a link, and
-- after it had been seen to be the file that was copied.
pub restore_all-Guarded :
    (H : Host) (fuel : ℕ) (args : Args) (areas : Areas) (p : String) (w : World H)
    → ((front : String) → front <> ".tmp" ≢ p)
    → Guarded (IsRestoring H areas.cold_roots p) p w.trace
    → Guarded (IsRestoring H areas.cold_roots p) p (restore_all H fuel args areas w).1.trace
unfolding restore_all
restore_all-Guarded H fuel args areas p w not_temporary h =
    (Keeps-bind _ _
        (Keeps-restore_paths H (Guarded-IsClosed (IsRestoring H areas.cold_roots p) p) _
          (Keeps-restore_one H areas p not_temporary fuel args.keep_cold) fuel args.paths (0, 0))
        λ (restored, failed). Keeps-pure _).at
      w h
