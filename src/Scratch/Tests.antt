-- ===== src/Scratch/Tests.antt =====
-- Runs of scratch-overflow.py and scratch-restore.py on a system that answers each call in one way.
use text.Mathlib.TextEquality.{eq_iff}
use text.Mathlib.TextLemmas.{cons-append, append-ne-nil_of_right_ne-nil}
use Prim.Native.Char.{code}
use krg_infra.Prelude.{
  ℕ, String, ◌<>◌, Bool, true, false, ◌==◌, text_eq, nat_eq, List, [], ◌∷◌, ◌≡◌, ◌≢◌, refl, ap, sym,
  ◌∙◌, if◌then◌else◌, Bool-cases, inl, inr, length, arith,
}
use krg_infra.Effects.{Result, ok, ◌>>=◌}
use krg_infra.Sorted.{sorted, IsSorted}
use krg_infra.Scratch.Os
use krg_infra.Scratch.Os.{
  Failure, FileKind, regular, Stat, Bytes, Call, Reply, Event, Host, World, perform, attempt,
  except_os_error,
}
use krg_infra.Scratch.Paths.{join}
use krg_infra.Scratch.Trace.{Guarded}
use krg_infra.Scratch.Overflow.{archive_one, last_use}
use krg_infra.Scratch.Overflow.Archived.{Safe}
use krg_infra.Scratch.Overflow.Replacement.{IsLocal}
use krg_infra.Scratch.Overflow.Safety.{archive_one-Safe}
use krg_infra.Scratch.Overflow.Candidates.{Candidate, before, Filter, gather_candidates}
use krg_infra.Scratch.Overflow.Candidates.Chosen.{AllChosen, gather_candidates-IsChosen}
use krg_infra.Scratch.Overflow.Sweep
use krg_infra.Scratch.Overflow.Sweep.Safety.{IsScratchFile, cold_path, main-Safe}
use krg_infra.Scratch.Overflow.Sweep.DryRun.{Untouched, main-Untouched}
use krg_infra.Scratch.Restore.{Areas}
use krg_infra.Scratch.Restore.Restored.{IsRestoring}
use krg_infra.Scratch.Restore.Command
use krg_infra.Scratch.Restore.Command.{restore_all}
use krg_infra.Scratch.Restore.Command.Guard.{restore_all-Guarded}

-- The last character of a text, by its number.
last_code : String → ℕ
last_code String.[] = 0
last_code (String.◌∷◌ c s) = let rest = last_code s in if s == "" then code c else rest

ending_ne_empty : ◌≢◌ {A = String} ".tmp" ""
ending_ne_empty same =
    let wrong : ◌==◌ {A = String} ".tmp" "" ≡ true = (eq_iff ".tmp" "").1 same in cc

tmp_ne_empty : (front : String) → (front <> ".tmp" == "") ≡ false
tmp_ne_empty front = elim (Bool-cases (front <> ".tmp" == "")) [
  | inl same ↦
      absurd
        (append-ne-nil_of_right_ne-nil front {t = ".tmp"} ending_ne_empty ((eq_iff _ "").0 same))
  | inr differ ↦ differ
]

last_of_tmp : (front : String) → last_code (front <> ".tmp") ≡ 112
unfolding last_code
last_of_tmp String.[] = refl
last_of_tmp (String.◌∷◌ c s) = rw (cons-append c s ".tmp", tmp_ne_empty s) (last_of_tmp s)

-- A path whose last character is another is not that of a temporary file.
not_temporary : (p : String) → last_code p ≢ 112 → (front : String) → front <> ".tmp" ≢ p
not_temporary p other front same = other (sym (ap last_code same) ∙ last_of_tmp front)

abbrev file_stat : Stat
file_stat = record {
  kind = regular;
  mode = 420;
  ino = 7;
  size = 2;
  blocks = 8;
  uid = 1000;
  gid = 100;
  atime = 5;
  mtime = 6;
  ctime = 4;
}

-- The state is whether the contents of the file were given.
abbrev answer : (c : Call) → Bool → Result Failure (Reply c) × Bool
answer (Os.stat p) given = (ok file_stat, given)
answer (Os.lstat p) given = (ok file_stat, given)
answer (Os.fstat fd) given = (ok file_stat, given)
answer (Os.lexists p) given = (ok false, given)
answer (Os.is_link p) given = (ok (p == "/s/f"), given)
answer (Os.is_dir p) given = (ok false, given)
answer (Os.is_mount p) given = (ok true, given)
answer (Os.realpath p) given = (ok p, given)
answer (Os.readlink p) given = (ok "/c/f", given)
answer Os.urandom given = (ok "00", given)
answer (Os.open_read p) given = (ok 3, false)
answer (Os.open_new p) given = (ok 4, given)
answer (Os.open_dir p) given = (ok 5, given)
answer (Os.open_append p) given = (ok 6, given)
answer (Os.open_truncated p) given = (ok 7, given)
answer Os.open_null given = (ok 8, given)
answer (Os.write fd bytes) given = (ok (length bytes), given)
answer Os.clock given = (ok 1000, given)
answer Os.geteuid given = (ok 0, given)
answer (Os.read fd) given = (ok (if given then [] else 10 ∷ 20 ∷ []), true)
answer (Os.list_dir p) given = (ok ([], "f" ∷ []), given)
answer (Os.run args) given = (ok (0, "100 90 10"), given)
answer (Os.rewind fd) given = (ok tt, false)
answer (Os.unlink p) given = (ok tt, given)
answer (Os.symlink target p) given = (ok tt, given)
answer (Os.rename from to) given = (ok tt, given)
answer (Os.mkdir p mode) given = (ok tt, given)
answer (Os.chmod p mode) given = (ok tt, given)
answer (Os.lchown p uid gid) given = (ok tt, given)
answer (Os.fsync fd) given = (ok tt, given)
answer (Os.close fd) given = (ok tt, given)
answer (Os.fchown fd uid gid) given = (ok tt, given)
answer (Os.utime fd atime mtime) given = (ok tt, given)
answer (Os.fchmod fd mode) given = (ok tt, given)
answer (Os.write_text fd text) given = (ok tt, given)
answer (Os.write_entry fd entry) given = (ok tt, given)

abbrev simple_host : Host
simple_host = record {
  State = Bool;
  answer = answer;
  sha256 = λ bytes. "hash";
  relpath = λ p start. "f";
}

abbrev start : World simple_host
start = record { host = false; trace = [] }

not_temporary_example : (front : String) → front <> ".tmp" ≢ "/s/f"
unfolding last_code
not_temporary_example = not_temporary "/s/f" (λ (h : 102 ≡ 112). absurd (omega arith))

f_IsLocal : IsLocal "/s/f" (join "/c" "f")
unfolding join
f_IsLocal = record { cold_apart = refl; not_temporary = not_temporary_example }

archive_one-Safe_example :
    Safe simple_host "/s/f"
      (join "/c" "f")
      (archive_one simple_host 5 "/s/f" "/s" "/c" 6 false "ttl" start).1.trace
archive_one-Safe_example =
    archive_one-Safe simple_host "/s/f" "/s" "/c" f_IsLocal 5 6 false "ttl" start tt

abbrev run_args : Sweep.Args
run_args = record {
  pool = "pool";
  scratch = "/s";
  cold = "/c";
  high = 85;
  low = 75;
  min_age = 100;
  max_idle = 500;
  zpool = "zpool";
  dry_run = false;
}

f_IsScratchFile : IsScratchFile simple_host run_args "/s/f"
unfolding join
f_IsScratchFile = record {
  not_temporary = not_temporary_example;
  cold_apart = λ q. refl;
  manifest_apart = refl;
  note_apart = refl;
}

main-Safe_example :
    Safe simple_host "/s/f"
      (cold_path simple_host run_args "/s/f")
      (Sweep.main simple_host 5 run_args start).1.trace
main-Safe_example = main-Safe simple_host run_args "/s/f" f_IsScratchFile 5 start tt

abbrev dry_args : Sweep.Args
dry_args = record run_args { dry_run = true }

main-Untouched_example : Untouched (Sweep.main simple_host 5 dry_args start).1.trace
main-Untouched_example = main-Untouched simple_host dry_args refl 5 start tt

abbrev filter : Filter
filter = record {
  skip_dir_prefixes = "/s/.scratch-overflow/" ∷ [];
  skip_exact = "/s/WHERE-IS-MY-DATA.txt" ∷ [];
  now = 1000;
  min_age = 100;
}

abbrev chosen : List Candidate
chosen = record { used = 6; size = 2; path = "/s/f" } ∷ []

gather_chooses : (gather_candidates simple_host filter 2 "/s" start).0 ≡ ok chosen
unfolding gather_candidates perform attempt except_os_error sorted join last_use ◌>>=◌
gather_chooses = refl

gather_candidates-IsChosen_example :
    IsSorted before chosen
    × AllChosen filter chosen (gather_candidates simple_host filter 2 "/s" start).1.trace
gather_candidates-IsChosen_example =
    gather_candidates-IsChosen simple_host filter 2 "/s" start chosen gather_chooses

abbrev restore_args : Command.Args
restore_args = record {
  paths = "/s/f" ∷ [];
  keep_cold = false;
  cold_root = "/c" ∷ [];
  scratch_root = "/s" ∷ [];
  overflow_map = [];
  env_cold_roots = "";
  env_scratch_roots = "";
  env_overflow_map = "";
}

abbrev areas : Areas
areas = record { scratch_roots = "/s" ∷ []; cold_roots = "/c" ∷ []; pairs = [] }

restore_all-Guarded_example :
    Guarded
      (IsRestoring simple_host ("/c" ∷ []) "/s/f")
      "/s/f"
      (restore_all simple_host 5 restore_args areas start).1.trace
restore_all-Guarded_example =
    restore_all-Guarded simple_host 5 restore_args areas "/s/f" start not_temporary_example tt
