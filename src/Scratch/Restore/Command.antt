-- ===== src/Scratch/Restore/Command.antt =====
-- `walk_links` and `main` of scratch-restore.py.
pub mod Guard
use Prim.Native.Char.{code}
use krg_infra.Prelude.{
  ℕ, zero, suc, ◌+◌, String, ◌<>◌, Bool, true, false, not, ◌&&◌, Option, none, some, List, [], ◌∷◌,
  ◌++◌, ◌==◌, text_eq, nat_eq, list_eq, if◌then◌else◌, keep,
}
use krg_infra.Text.{split_at, text_le}
use krg_infra.Sorted.{sorted, dedup}
use krg_infra.Effects.{pure, throw, map_exec, ◌>>=◌, ◌>>◌}
use krg_infra.Scratch.Os.{
  fuel_spent, is_link, is_dir, realpath, list_dir, Host, Run, perform, attempt,
}
use krg_infra.Scratch.Paths.{join}
use krg_infra.Scratch.Restore.{Areas, restore_one}

-- The command line, and the variables of the environment, "" where one is not set.
pub record Args : Type 0 where
  pub paths : List String
  pub keep_cold : Bool
  pub cold_root : List String
  pub scratch_root : List String
  pub overflow_map : List String
  pub env_cold_roots : String
  pub env_scratch_roots : String
  pub env_overflow_map : String

-- The parts of a variable that are not empty.
parts_of : ℕ → String → List String
unfolding split_at
parts_of separator text = keep (λ r. not (r == "")) (split_at separator text)

-- `m.split("=", 1)`, if there is a "=".
split_pair : String → Option (String × String)
split_pair String.[] = none
split_pair (String.◌∷◌ c s) =
    let rest = split_pair s in
    if code c == 61
    then some ("", s)
    else elim rest [ none ↦ none | some (a, b) ↦ some (String.◌∷◌ c a, b) ]

module _ (H : Host) where
  -- `sorted({os.path.realpath(r) for r in vals})`
  build : List String → String → Run H (List String)
  unfolding parts_of
  build flag_vals env = do
    roots ← map_exec (λ r. perform H (realpath r)) (flag_vals ++ parts_of 58 env)
    pure (sorted text_le (dedup roots))

  abbrev cons_pair : Option (String × String) → List (String × String) → List (String × String)
  cons_pair none pairs = pairs
  cons_pair (some pair) pairs = pair ∷ pairs

  read_pair : Option (String × String) → Run H (Option (String × String))
  read_pair none = pure none
  read_pair (some (sroot, croot)) = do
    sreal ← perform H (realpath sroot)
    creal ← perform H (realpath croot)
    pure (some (sreal, creal))

  read_pairs : List String → Run H (List (String × String))
  unfolding split_pair read_pair
  read_pairs [] = pure []
  read_pairs (m ∷ ms) = do
    pair ← read_pair (split_pair m)
    rest ← read_pairs ms
    pure (cons_pair pair rest)

  -- How many links were restored, and how many were not.
  abbrev tally : Bool → ℕ × ℕ → ℕ × ℕ
  tally true (restored, failed) = (restored + 1, failed)
  tally false (restored, failed) = (restored, failed + 1)

  module _ (restore : String → Run H Bool) where
    restore_links : String → List String → ℕ × ℕ → Run H (ℕ × ℕ)
    restore_links dirpath [] counts = pure counts
    restore_links dirpath (name ∷ names) counts = do
      linked ← perform H (is_link (join dirpath name))
      counts' ←
          if linked
          then (restore (join dirpath name) >>= λ done. pure (tally done counts))
          else pure counts
      restore_links dirpath names counts'

    visit_dirs : (String → ℕ × ℕ → Run H (ℕ × ℕ)) → String → List String → ℕ × ℕ → Run H (ℕ × ℕ)
    visit_dirs visit dirpath [] counts = pure counts
    visit_dirs visit dirpath (d ∷ ds) counts = do
      linked ← perform H (is_link (join dirpath d))
      counts' ← if linked then pure counts else visit (join dirpath d) counts
      visit_dirs visit dirpath ds counts'

    visit_tree :
        (String → ℕ × ℕ → Run H (ℕ × ℕ))
        → String
        → ℕ × ℕ
        → Option (List String × List String)
        → Run H (ℕ × ℕ)
    unfolding restore_links visit_dirs
    visit_tree visit root counts none = pure counts
    visit_tree visit root counts (some (dirs, files)) = do
      counts' ← restore_links root files counts
      visit_dirs visit root dirs counts'

    -- `for link in walk_links(p)`: each link is restored when the walk has come to it.
    restore_tree : (depth : ℕ) → String → ℕ × ℕ → Run H (ℕ × ℕ)
    unfolding visit_tree
    restore_tree zero root counts = throw fuel_spent
    restore_tree (suc depth) root counts =
        attempt H (perform H (list_dir root)) >>= visit_tree (restore_tree depth) root counts

    restore_file : String → ℕ × ℕ → Run H (ℕ × ℕ)
    restore_file p counts = do
      done ← restore p
      if done then pure (tally true counts) else do
        linked ← perform H (is_link p)
        pure (if linked then tally false counts else counts)

    restore_path : (depth : ℕ) → String → ℕ × ℕ → Run H (ℕ × ℕ)
    unfolding restore_tree restore_file
    restore_path depth p counts = do
      directory ← perform H (is_dir p)
      linked ← if directory then perform H (is_link p) else pure true
      if directory && not linked then restore_tree depth p counts else restore_file p counts

    restore_paths : (depth : ℕ) → List String → ℕ × ℕ → Run H (ℕ × ℕ)
    unfolding restore_path
    restore_paths depth [] counts = pure counts
    restore_paths depth (p ∷ ps) counts = restore_path depth p counts >>= restore_paths depth ps

  -- `main` with the areas that it has read.
  pub restore_all : (fuel : ℕ) → Args → Areas → Run H ℕ
  unfolding restore_paths
  restore_all fuel args areas = do
    (restored, failed) ←
        restore_paths (restore_one H fuel areas args.keep_cold) fuel args.paths (0, 0)
    pure (if failed == 0 then 0 else 1)

  unfoldable pub main : (fuel : ℕ) → Args → Run H ℕ
  unfolding build read_pairs restore_all
  main fuel args = do
    cold_roots ← build args.cold_root args.env_cold_roots
    if cold_roots == [] then pure 2 else do
      scratch_roots ← build args.scratch_root args.env_scratch_roots
      pairs ← read_pairs (args.overflow_map ++ parts_of 59 args.env_overflow_map)
      restore_all fuel args
          (record { scratch_roots = scratch_roots; cold_roots = cold_roots; pairs = pairs })
