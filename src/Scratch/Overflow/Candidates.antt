-- ===== src/Scratch/Overflow/Candidates.antt =====
-- `gather_candidates` of scratch-overflow.py: the files that were not used lately, coldest first.
pub mod Quiet
pub mod Chosen
use text.Mathlib.Text.{starts_with}
use krg_infra.Prelude.{
  ℕ, zero, suc, ◌+◌, String, ◌<>◌, Bool, true, false, not, ◌&&◌, ◌||◌, Option, none, some, List, [],
  ◌∷◌, ◌++◌, ◌==◌, ltb, leb, text_eq, nat_eq, if◌then◌else◌, keep, any, contains,
}
use krg_infra.Sorted.{sorted}
use krg_infra.Effects.{pure, throw, ◌>>=◌}
use krg_infra.Scratch.Os.{
  is_regular, Stat, lstat, is_link, list_dir, Host, Run, fuel_spent, perform, attempt,
}
use krg_infra.Scratch.Paths.{join}
use krg_infra.Scratch.Overflow.{last_use}

-- When a file was last used, its size and its path.
pub record Candidate : Type 0 where
  pub used : ℕ
  pub size : ℕ
  pub path : String

-- Coldest first; of files that were last used at one time, the bigger first.
abbrev pub before : Candidate → Candidate → Bool
before a b = ltb a.used b.used || a.used == b.used && leb b.size a.size

-- The subtrees and the files that are passed over, and the age that a file must have.
pub record Filter : Type 0 where
  pub skip_dir_prefixes : List String
  pub skip_exact : List String
  pub now : ℕ
  pub min_age : ℕ

-- Whether a file was used after `now - min_age`.
abbrev pub too_hot : Filter → ℕ → Bool
too_hot f used = ltb f.now (used + f.min_age)

abbrev pub is_skipped : Filter → String → Bool
is_skipped f p = contains f.skip_exact p || any (λ prefix. starts_with p prefix) f.skip_dir_prefixes

-- A file as a candidate, by what `os.lstat` says of it.
unfoldable pub candidate : Filter → String → Option Stat → List Candidate
unfolding last_use
candidate f p none = []
candidate f p (some st) =
    if not (is_regular st.kind) || st.size == 0 || too_hot f (last_use st)
    then []
    else record { used = last_use st; size = st.size; path = p } ∷ []

module _ (H : Host) (f : Filter) where
  judge : String → Run H (List Candidate)
  unfolding candidate
  judge p =
      if is_skipped f p
      then pure []
      else do st ← attempt H (perform H (lstat p)); pure (candidate f p st)

  judge_all : String → List String → Run H (List Candidate)
  unfolding judge
  judge_all root [] = pure []
  judge_all root (name ∷ names) = do
    found ← judge (join root name)
    rest ← judge_all root names
    pure (found ++ rest)

  -- `os.walk` goes into the subdirectories that are no links.
  visit_all : (String → Run H (List Candidate)) → String → List String → Run H (List Candidate)
  visit_all visit root [] = pure []
  visit_all visit root (d ∷ ds) = do
    linked ← perform H (is_link (join root d))
    found ← if linked then pure [] else visit (join root d)
    rest ← visit_all visit root ds
    pure (found ++ rest)

  -- `os.walk` passes over a directory that it cannot list.
  visit_listing :
      (String → Run H (List Candidate))
      → String
      → Option (List String × List String)
      → Run H (List Candidate)
  unfolding judge_all visit_all
  visit_listing visit root none = pure []
  visit_listing visit root (some (dirs, files)) = do
    found ← judge_all root files
    below ←
        visit_all visit root
          (keep (λ d. not (contains f.skip_dir_prefixes (join root d <> "/"))) dirs)
    pure (found ++ below)

  walk : (depth : ℕ) → String → Run H (List Candidate)
  unfolding visit_listing
  walk zero root = throw fuel_spent
  walk (suc depth) root = attempt H (perform H (list_dir root)) >>= visit_listing (walk depth) root

  unfoldable pub gather_candidates : (depth : ℕ) → String → Run H (List Candidate)
  unfolding walk
  gather_candidates depth scratch = do cands ← walk depth scratch; pure (sorted before cands)
