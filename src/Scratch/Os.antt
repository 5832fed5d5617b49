-- ===== src/Scratch/Os.antt =====
-- The calls of the operating system that scratch-overflow.py and scratch-restore.py make.
use krg_infra.Prelude.{ℕ, String, Bool, true, false, Option, none, some, List, ◌∷◌, nat_eq}
use krg_infra.Effects.{Result, Exec, pure, throw, lift, catch, ◌>>=◌}

-- The classes of `OSError` that the code tells apart.
pub data OsError : Type 0 where
  file_not_found permission_error other_error : OsError

-- What may leave a function. The last one is not Python's: it marks a loop of the model whose fuel
-- is spent.
pub data Failure : Type 0 where
  os_error : OsError → Failure
  system_exit : ℕ → Failure
  other_exception fuel_spent : Failure

pub data FileKind : Type 0 where
  regular directory link special : FileKind

abbrev pub is_regular : FileKind → Bool
is_regular regular = true
is_regular _ = false

abbrev pub is_directory : FileKind → Bool
is_directory directory = true
is_directory _ = false

abbrev pub is_symlink : FileKind → Bool
is_symlink link = true
is_symlink _ = false

-- `os.stat_result`: the kind and the permission bits of `st_mode`, and the times in nanoseconds.
pub record Stat : Type 0 where
  pub kind : FileKind
  pub mode : ℕ
  pub ino : ℕ
  pub size : ℕ
  pub blocks : ℕ
  pub uid : ℕ
  pub gid : ℕ
  pub atime : ℕ
  pub mtime : ℕ
  pub ctime : ℕ

abbrev pub Bytes : Type 0
Bytes = List ℕ

-- A line of the manifest.
pub record Entry : Type 0 where
  pub ts : ℕ
  pub reason : String
  pub path : String
  pub dest : String
  pub size : ℕ
  pub sha256 : String
  pub atime : ℕ
  pub last_use : ℕ

-- A call with its arguments. Files that are open go by their descriptors. `open_read` and `open_new`
-- are `os.open` with O_RDONLY and with O_RDWR | O_CREAT | O_EXCL, `open_append` and `open_truncated`
-- with O_CREAT | O_APPEND and O_CREAT | O_TRUNC, each with O_NOFOLLOW; `open_null` opens
-- `os.devnull`. `rename` is `os.replace`, `rewind` is `os.lseek(fd, 0, SEEK_SET)`, `urandom` is
-- `os.urandom(6).hex()`, `list_dir` is `os.scandir`, which gives subdirectories and other entries.
pub data Call : Type 0 where
  stat lstat lexists is_link is_dir is_mount realpath readlink unlink : String → Call
  open_read open_new open_dir open_append open_truncated list_dir : String → Call
  symlink rename : String → String → Call
  mkdir chmod : String → ℕ → Call
  lchown : String → ℕ → ℕ → Call
  read fsync close rewind fstat : ℕ → Call
  write : ℕ → Bytes → Call
  fchown utime : ℕ → ℕ → ℕ → Call
  fchmod : ℕ → ℕ → Call
  urandom clock geteuid open_null : Call
  write_text : ℕ → String → Call
  write_entry : ℕ → Entry → Call
  run : List String → Call

abbrev pub Reply : Call → Type 0
Reply (stat p) = Stat
Reply (lstat p) = Stat
Reply (fstat fd) = Stat
Reply (lexists p) = Bool
Reply (is_link p) = Bool
Reply (is_dir p) = Bool
Reply (is_mount p) = Bool
Reply (realpath p) = String
Reply (readlink p) = String
Reply urandom = String
Reply (open_read p) = ℕ
Reply (open_new p) = ℕ
Reply (open_dir p) = ℕ
Reply (open_append p) = ℕ
Reply (open_truncated p) = ℕ
Reply open_null = ℕ
Reply (write fd bytes) = ℕ
Reply clock = ℕ
Reply geteuid = ℕ
Reply (read fd) = Bytes
Reply (list_dir p) = List String × List String
Reply (run args) = ℕ × String
Reply (unlink p) = Unit {0}
Reply (symlink target p) = Unit {0}
Reply (rename from to) = Unit {0}
Reply (mkdir p mode) = Unit {0}
Reply (chmod p mode) = Unit {0}
Reply (lchown p uid gid) = Unit {0}
Reply (fsync fd) = Unit {0}
Reply (close fd) = Unit {0}
Reply (rewind fd) = Unit {0}
Reply (fchown fd uid gid) = Unit {0}
Reply (utime fd atime mtime) = Unit {0}
Reply (fchmod fd mode) = Unit {0}
Reply (write_text fd text) = Unit {0}
Reply (write_entry fd entry) = Unit {0}

-- The system, which is free to answer every call in any way, and two functions of the libraries:
-- `hashlib.sha256` of the bytes that it was fed, and `os.path.relpath`.
pub record Host : Type 1 where
  pub State : Type 0
  pub answer : (c : Call) → State → Result Failure (Reply c) × State
  pub sha256 : Bytes → String
  pub relpath : String → String → String

-- A call that was made, with its outcome.
pub data Event : Type 0 where
  did : (c : Call) → Result Failure (Reply c) → Event

-- The system, and what the tool has done, the last first.
pub record World (H : Host) : Type 0 where
  pub host : H.State
  pub trace : List Event

abbrev pub Run : Host → Type 0 → Type 0
Run H A = Exec Failure (World H) A

module _ (H : Host) where
  unfoldable pub perform : (c : Call) → Run H (Reply c)
  perform c w =
      let (r, s) = H.answer c w.host in (r, record { host = s; trace = did c r ∷ w.trace })

  -- `try: m finally: k`
  unfoldable pub finally : {A : Type 0} → Run H A → Run H (Unit {0}) → Run H A
  finally m k w = let (r, w') = m w in (k >>= λ _. lift r) w'

  abbrev pub on_os_error : {A : Type 0} → (OsError → Run H A) → Failure → Run H A
  on_os_error h (os_error e) = h e
  on_os_error h e = throw e

  -- `try: m except OSError as e: h(e)`
  unfoldable pub except_os_error : {A : Type 0} → Run H A → (OsError → Run H A) → Run H A
  except_os_error m h = catch m (on_os_error h)

  -- `try: x = m except OSError: x = None`
  unfoldable pub attempt : {A : Type 0} → Run H A → Run H (Option A)
  unfolding except_os_error
  attempt m = except_os_error (do a ← m; pure (some a)) (λ _. pure none)
