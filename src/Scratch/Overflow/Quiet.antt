-- ===== src/Scratch/Overflow/Quiet.antt =====
-- The functions of scratch-overflow.py that destroy nothing.
use krg_infra.Prelude.{
  ℕ, String, false, ◌==◌, text_eq, nat_eq, ◌≡◌, List, [], ◌∷◌, Option, none, some,
}
use krg_infra.Effects.Triple.{Keeps, Keeps-bind, Keeps-if, Keeps-pure, Keeps-throw, Keeps-catch}
use krg_infra.Scratch.Os.{
  file_not_found, permission_error, other_error, Failure, os_error, system_exit, other_exception,
  fuel_spent, FileKind, Stat, Event, Host, Run,
}
use krg_infra.Scratch.Steps.{Traced}
use krg_infra.Scratch.Trace.{IsClosed}
use krg_infra.Scratch.Paths.{join}
use krg_infra.Scratch.Copying.Quiet.{quiet_rules}
use krg_infra.Scratch.Overflow.{
  if_missing, except_missing, prepare_state_dir, open_manifest, ensure_directory, copy_owner,
  make_or_check, write_note, note_name, mirror_parts, makedirs_mirror, note_archived,
}

module _ (H : Host) {p : String} {T : List Event → Type 0} (closed : IsClosed p T) where
  Keeps-if_missing :
      {A : Type 0} (h : Run H A) (e : Failure)
      → Keeps (Traced H T) h
      → Keeps (Traced H T) (if_missing H h e)
  Keeps-if_missing h (os_error file_not_found) k = k
  Keeps-if_missing h (os_error permission_error) k = Keeps-throw _
  Keeps-if_missing h (os_error other_error) k = Keeps-throw _
  Keeps-if_missing h (system_exit n) k = Keeps-throw _
  Keeps-if_missing h other_exception k = Keeps-throw _
  Keeps-if_missing h fuel_spent k = Keeps-throw _

  Keeps-except_missing :
      {A : Type 0} (m h : Run H A)
      → Keeps (Traced H T) m
      → Keeps (Traced H T) h
      → Keeps (Traced H T) (except_missing H m h)
  unfolding except_missing
  Keeps-except_missing m h km kh = Keeps-catch m _ km (λ e. Keeps-if_missing h e kh)

  Keeps-prepare_state_dir :
      (state_dir : String) → Keeps (Traced H T) (prepare_state_dir H state_dir)
  unfolding prepare_state_dir
  Keeps-prepare_state_dir state_dir =
      Keeps-except_missing _ _ (search quiet_rules depth 10) (search quiet_rules depth 10)

  pub Keeps-open_manifest :
      (state_dir : String)
      → (join state_dir "manifest.jsonl" == p) ≡ false
      → Keeps (Traced H T) (open_manifest H state_dir)
  unfolding open_manifest
  Keeps-open_manifest state_dir apart = search (quiet_rules, Keeps-prepare_state_dir) depth 10

  Keeps-make_or_check :
      (cold : String) (kind : Option FileKind) → Keeps (Traced H T) (make_or_check H cold kind)
  unfolding make_or_check
  Keeps-make_or_check cold none = search quiet_rules
  Keeps-make_or_check cold (some kind) = search quiet_rules

  Keeps-ensure_directory : (cold : String) → Keeps (Traced H T) (ensure_directory H cold)
  unfolding ensure_directory
  Keeps-ensure_directory cold =
      Keeps-bind _ _ (Keeps-except_missing _ _ (search quiet_rules depth 10) (Keeps-pure none))
        (Keeps-make_or_check cold)

  Keeps-copy_owner : (src cold : String) → Keeps (Traced H T) (copy_owner H src cold)
  unfolding copy_owner
  Keeps-copy_owner src cold = search quiet_rules depth 10

  Keeps-mirror_parts :
      (src cold : String) (parts : List String) → Keeps (Traced H T) (mirror_parts H src cold parts)
  unfolding mirror_parts
  Keeps-mirror_parts src cold [] = search quiet_rules
  Keeps-mirror_parts src cold (part ∷ parts) = Keeps-if _ _ _ (Keeps-mirror_parts src cold parts) (
      Keeps-bind _ _ (Keeps-ensure_directory (join cold part)) λ _.
        Keeps-bind _ _ (Keeps-copy_owner (join src part) (join cold part))
          λ _. Keeps-mirror_parts (join src part) (join cold part) parts)

  pub Keeps-makedirs_mirror :
      (scratch cold rel : String) → Keeps (Traced H T) (makedirs_mirror H scratch cold rel)
  unfolding makedirs_mirror
  Keeps-makedirs_mirror scratch cold rel = search (quiet_rules, Keeps-mirror_parts) depth 8

  pub Keeps-write_note :
      (scratch cold : String)
      → (join scratch note_name == p) ≡ false
      → Keeps (Traced H T) (write_note H scratch cold)
  unfolding write_note
  Keeps-write_note scratch cold apart = search quiet_rules depth 10

  pub Keeps-note_archived :
      (manifest : ℕ) (reason path dest sha : String) (st : Stat)
      → Keeps (Traced H T) (note_archived H manifest reason path dest sha st)
  unfolding note_archived
  Keeps-note_archived manifest reason path dest sha st = search quiet_rules depth 8
