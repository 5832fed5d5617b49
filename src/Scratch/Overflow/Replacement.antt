-- ===== src/Scratch/Overflow/Replacement.antt =====
-- `archive_one` replaces a local file only by a link to its verified copy.
use krg_infra.Prelude.{
  ℕ, String, ◌<>◌, true, false, ◌==◌, text_eq, nat_eq, List, Option, none, some, ◌≡◌, ◌≢◌, refl,
  inl, arith,
}
use krg_infra.Effects.{ok, raised, pure, ◌>>◌}
use krg_infra.Scratch.Os.{
  Stat, Event, did, stat, symlink, rename, unlink, urandom, Host, perform, attempt,
}
use krg_infra.Scratch.Paths.{dirname}
use krg_infra.Scratch.Steps.{
  Steps, Steps-perform, Steps-pure, Steps-if, Steps-given, Steps-attempt, Keeps-attempt, Steps-bind,
  Steps-weaken, Steps-except_os_error, Steps-of_Keeps,
}
use krg_infra.Scratch.Trace.{Guarded-IsClosed, Lasts, After, Keeps-unlink}
use krg_infra.Scratch.Copying.{unchanged, tmp_sibling, discard}
use krg_infra.Scratch.Copying.Temporary.{sibling-ne}
use krg_infra.Scratch.Copying.Quiet.{Keeps-fsync_dir, Keeps-unlink_stale, Keeps-discard}
use krg_infra.Scratch.Overflow.{note_archived, swap_and_note, swap, replace_local}
use krg_infra.Scratch.Overflow.Quiet.{Keeps-note_archived}
use krg_infra.Scratch.Copying.ReadBack.{Published}
use krg_infra.Scratch.Overflow.Archived.{
  Archived, IsSwap, Archived-Lasts, Safe, SafeAnd, SafeAnd-IsClosed, quiet, call,
}

-- Where the file and its copy stand: the copy has another path, and the file's is no temporary one.
pub record IsLocal (path dest : String) : Type 0 where
  pub cold_apart : (dest == path) ≡ false
  pub not_temporary : (front : String) → front <> ".tmp" ≢ path

module _ (H : Host) (path dest : String) (local : IsLocal path dest) where
  pub tmp_sibling-Steps :
      {S : List Event → Type 0} (base : String)
      → Lasts S
      → Steps H
          (SafeAnd H path dest S)
          (tmp_sibling H base "so")
          (λ tmp t. ((tmp == path) ≡ false) × SafeAnd H path dest S t)
          (Safe H path dest)
  unfolding tmp_sibling
  tmp_sibling-Steps base lasts =
      Steps-bind H _ _ _ (call H path dest lasts urandom (λ r. refl)) (λ digits.
        Steps-pure H _ (λ t h. (sibling-ne path local.not_temporary base "so" digits, h)))

  pub discard-Steps :
      {A : Type 0} (tmp : String) (a : A) {Q : A → List Event → Type 0}
      → (tmp == path) ≡ false
      → ((t : List Event) → Safe H path dest t → Q a t)
      → Steps H (Safe H path dest) (discard H tmp >> pure a) Q (Safe H path dest)
  discard-Steps tmp a apart good =
      Steps-bind H (λ _. Safe H path dest) _ _
        (Steps-of_Keeps H _ (λ t h. h)
          (Keeps-discard H (Guarded-IsClosed (IsSwap H path dest) path) tmp apart))
        (λ _. Steps-pure H a good)

  -- The swap itself: it comes when the copy is there, and puts a link to it.
  swap-Steps :
      (tmp : String)
      → (tmp == path) ≡ false
      → Steps H
          (SafeAnd H path dest (Archived H path dest))
          (swap H path dest tmp)
          (λ _. Safe H path dest)
          (Safe H path dest)
  unfolding swap
  swap-Steps tmp apart =
      let lasts = Archived-Lasts H path dest in
      let linked = After (did (symlink dest tmp) (ok tt)) (Archived H path dest) in
      Steps-bind H _ _ _
        (quiet H path dest lasts _
          (Keeps-unlink_stale H (SafeAnd-IsClosed H path dest lasts) tmp apart))
        λ _.
          Steps-bind H (λ _. SafeAnd H path dest linked) _ _
            (Steps-perform H (symlink dest tmp) (λ _ t (g, s). (((λ d. cc), g), inl (refl, s)))
              (λ e t (g, s). ((λ d. cc), g)))
            λ _.
              Steps-bind H (λ _. Safe H path dest) _ _
                (Steps-perform H (rename tmp path) (λ _ t (g, s). ((λ d. (tmp, ok tt, refl, s)), g))
                  (λ e t (g, s). ((λ d. (tmp, raised e, refl, s)), g)))
                λ _.
                  Steps-of_Keeps H _ (λ t h. h)
                    (Keeps-fsync_dir H (Guarded-IsClosed (IsSwap H path dest) path) (dirname path))

  module _ (manifest : ℕ) (reason sha : String) (st : Stat) where
    -- What the second look has shown.
    abbrev SeenAgain : Option Stat → List Event → Type 0
    SeenAgain none t = Unit
    SeenAgain (some st2) t =
        (part : String) × (fd : ℕ) × After (did (stat path) (ok st2))
          (Published H path dest st part fd) t

    drop_copy-Steps :
        Steps H
          (Safe H path dest)
          (attempt H (perform H (unlink dest)) >> pure false)
          (λ _. Safe H path dest)
          (Safe H path dest)
    drop_copy-Steps =
        let closed = Guarded-IsClosed (IsSwap H path dest) path in
        Steps-bind H (λ _. Safe H path dest) _ _
          (Steps-of_Keeps H _ (λ t h. h)
            (Keeps-attempt H _ (Keeps-unlink H closed dest local.cold_apart)))
          (λ _. Steps-pure H false (λ t h. h))

    note-Steps :
        Steps H
          (Safe H path dest)
          (note_archived H manifest reason path dest sha st >> pure true)
          (λ _. Safe H path dest)
          (Safe H path dest)
    note-Steps =
        Steps-bind H (λ _. Safe H path dest) _ _
          (Steps-of_Keeps H _ (λ t h. h)
            (Keeps-note_archived H (Guarded-IsClosed (IsSwap H path dest) path) manifest reason path
              dest sha st))
          (λ _. Steps-pure H true (λ t h. h))

    swap_and_note-Steps :
        Steps H
          (SafeAnd H path dest (Archived H path dest))
          (swap_and_note H manifest reason path dest sha st)
          (λ _. Safe H path dest)
          (Safe H path dest)
    unfolding swap_and_note
    swap_and_note-Steps =
        Steps-bind H _ _ _ (tmp_sibling-Steps path (Archived-Lasts H path dest)) λ tmp.
          Steps-given H _ (λ t h. h.0)
            λ apart.
              Steps-bind H (λ _. Safe H path dest) _ _
                (Steps-except_os_error H (Safe H path dest) _ _
                  (Steps-bind H (λ _. Safe H path dest) _ _
                    (Steps-weaken H _ (λ t h. h.1) (λ _ t h. h) (λ t h. h) (swap-Steps tmp apart))
                    (λ _. Steps-pure H true (λ t h. h)))
                  (λ t h. h) (λ _. discard-Steps tmp false apart (λ t h. h)))
                λ swapped.
                  Steps-if H swapped _ _ (λ _. note-Steps) (λ _. Steps-pure H false (λ t h. h))

    swap_same-Steps :
        (st2 : Option Stat)
        → unchanged st st2 ≡ true
        → Steps H
            (SafeAnd H path dest (SeenAgain st2))
            (swap_and_note H manifest reason path dest sha st)
            (λ _. Safe H path dest)
            (Safe H path dest)
    swap_same-Steps none same = cc
    swap_same-Steps (some st2) same =
        Steps-weaken H _ (λ t (g, (part, fd, h)). (g, (st, st2, part, fd, same, h))) (λ _ t h. h)
          (λ t h. h) swap_and_note-Steps

    pub replace_local-Steps :
        (part : String) (fd : ℕ)
        → Steps H
            (SafeAnd H path dest (Published H path dest st part fd))
            (replace_local H manifest reason path dest sha st)
            (λ _. Safe H path dest)
            (Safe H path dest)
    unfolding replace_local
    replace_local-Steps part fd =
        Steps-bind H (λ st2. SafeAnd H path dest (SeenAgain st2)) _ _
          (Steps-attempt H (λ st2. SafeAnd H path dest (SeenAgain st2)) (Safe H path dest) _
            (Steps-perform H (stat path)
              (λ st2 t (g, s). (((λ d. cc), g), (part, fd, inl (refl, s))))
              (λ e t (g, s). ((λ d. cc), g)))
            (λ t h. (h, tt)) (λ t h. h))
          λ st2.
            Steps-if H _ _ _
              (λ _. Steps-weaken H _ (λ t h. h.0) (λ _ t h. h) (λ t h. h) drop_copy-Steps)
              (λ same. swap_same-Steps st2 (ground (arith, same)))
