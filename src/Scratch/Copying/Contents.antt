-- ===== src/Scratch/Copying/Contents.antt =====
-- What `copy_and_hash` and `fd_sha256` have done when they return: the hash is that of the bytes
-- read, and the copy has been given the same bytes.
use mathlib.Core.List.{append_assoc, append-nil}
use krg_infra.Prelude.{
  ℕ, zero, suc, ◌+◌, String, text_eq, nat_eq, list_eq, list_beq, list_beq_iff, inl, inr, List, [],
  ◌∷◌, ◌++◌, length, length-append, ◌≡◌, refl, sym, ap, ◌∙◌, beq_refl, arith,
}
use krg_infra.Effects.{catch, ok, pure}
use krg_infra.Scratch.Os.{
  Failure, Bytes, Event, did, Host, read, write, open_read, open_new, close, fsync, rewind, perform,
}
use krg_infra.Scratch.Steps.{
  Steps, Steps-perform, Steps-pure, Steps-throw, Steps-if, Steps-bind, Steps-weaken, Steps-catch,
  Steps-finally, Steps-of_Keeps,
}
use krg_infra.Scratch.Trace.{
  IsClosed, take, read_from, written_to, After, After-Lasts, After-map, with-IsClosed, Earlier,
  Earlier-now, Earlier-map, Earlier-fact, Keeps-close,
}
use krg_infra.Scratch.Copying.{
  drop, drain, copy_loop, copy_contents, close_and_raise, copy_and_hash, hash_loop, fd_sha256,
}

take-append-drop : (k : ℕ) (bs : Bytes) → take k bs ++ drop k bs ≡ bs
take-append-drop zero bs = refl
take-append-drop (suc k) [] = refl
take-append-drop (suc k) (b ∷ bs) = ap (λ r. b ∷ r) (take-append-drop k bs)

module _ (H : Host) {p : String} {T : List Event → Type 0} (closed : IsClosed p T) where
  -- What has been written to the copy and read from the source, while `T` holds.
  abbrev Moved : (fd src : ℕ) → Bytes → Bytes → List Event → Type 0
  Moved fd src out inp t = (written_to fd t ≡ out) × (read_from src t ≡ inp) × T t

  drain-Moved :
      (fuel fd src : ℕ) (bs out inp : Bytes)
      → Steps H (Moved fd src out inp) (drain H fuel fd bs) (λ _. Moved fd src (out ++ bs) inp) T
  unfolding drain
  drain-Moved fuel fd src [] out inp =
      Steps-pure H tt (λ t (w, r, h). (w ∙ sym (append-nil out), r, h))
  drain-Moved zero fd src (b ∷ bs) out inp = Steps-throw H _ (λ t (w, r, h). h)
  drain-Moved (suc fuel) fd src (b ∷ bs) out inp =
      Steps-bind H (λ k. Moved fd src (out ++ take k (b ∷ bs)) inp) _ _
        (Steps-perform H (write fd (b ∷ bs))
          (λ k t (w, r, h).
            (rw (beq_refl fd) (ap (λ o. o ++ take k (b ∷ bs)) w), r, closed.add _ t refl h))
          (λ e t (w, r, h). closed.add _ t refl h))
        λ k.
          Steps-weaken H _ (λ t h. h)
            (λ _ t (w, r, h).
              (w ∙ append_assoc out _ _ ∙ ap (λ r. out ++ r) (take-append-drop k (b ∷ bs)), r, h))
            (λ t h. h) (drain-Moved fuel fd src (drop k (b ∷ bs)) (out ++ take k (b ∷ bs)) inp)

  -- The bytes that the hash was fed are those read and those written.
  abbrev Copied : (fd src : ℕ) → Bytes × ℕ → List Event → Type 0
  Copied fd src (fed, n) t = Moved fd src fed fed t × (n ≡ length fed)

  copy_loop-Copied :
      (fuel src fd : ℕ) (fed : Bytes) (n : ℕ)
      → n ≡ length fed
      → Steps H (Moved fd src fed fed) (copy_loop H fuel src fd fed n) (Copied fd src) T
  unfolding copy_loop
  copy_loop-Copied zero src fd fed n same = Steps-throw H _ (λ t (w, r, h). h)
  copy_loop-Copied (suc fuel) src fd fed n same =
      Steps-bind H (λ (buf : Bytes). Moved fd src fed (fed ++ buf)) _ _
        (Steps-perform H (read src)
          (λ buf t (w, r, h). (w, rw (beq_refl src) (ap (λ i. i ++ buf) r), closed.add _ t refl h))
          (λ e t (w, r, h). closed.add _ t refl h))
        λ (buf : Bytes).
          Steps-if H (list_beq buf []) (pure (fed, n)) _
            (λ done.
              let none_left : buf ≡ [] = (list_beq_iff buf []).0 done in
              Steps-pure H (fed, n)
                (λ t (w, r, h). ((w, r ∙ ap (λ b. fed ++ b) none_left ∙ append-nil fed, h), same)))
            (λ more.
              Steps-bind H (λ _. Moved fd src (fed ++ buf) (fed ++ buf)) _ _
                (drain-Moved fuel fd src buf fed (fed ++ buf))
                (λ _.
                  copy_loop-Copied fuel src fd (fed ++ buf) (n + length buf)
                    (omega (arith, length-append fed buf, same))))

  copy_contents-Copied :
      (fuel src fd : ℕ)
      → Steps H
          (Moved fd src [] [])
          (copy_contents H fuel src fd)
          (λ c t. Earlier (Copied fd src c) t × T t)
          T
  unfolding copy_contents
  copy_contents-Copied fuel src fd =
      Steps-bind H (λ c t. Earlier (Copied fd src c) t × T t) _ _
        (Steps-finally H _ _
          (Steps-weaken H _ (λ t h. h) (λ c t h. (Earlier-now (Copied fd src c) t h, h.0.2))
            (λ t h. h) (copy_loop-Copied fuel src fd [] 0 refl))
          (λ c.
            Steps-perform H (close src) (λ _ t h. (inr h.0, closed.add _ t refl h.1))
              (λ e t h. closed.add _ t refl h.1))
          (Steps-of_Keeps H _ (λ t h. h) (Keeps-close H closed src)))
        λ c.
          Steps-bind H (λ _ t. Earlier (Copied fd src c) t × T t) _ _
            (Steps-perform H (fsync fd) (λ _ t h. (inr h.0, closed.add _ t refl h.1))
              (λ e t h. closed.add _ t refl h.1))
            λ _. Steps-pure H c (λ t h. h)

-- The contents of `path` have just been read by a descriptor and written to the new file `part` by
-- `fd`, both to the last byte, after a time with `Before`.
abbrev pub Transfers :
    (path part : String) (fd : ℕ) → Bytes → (List Event → Type 0) → List Event → Type 0
Transfers path part fd bytes Before t =
    (src : ℕ) × (read_from src t ≡ bytes)
    × (written_to fd t ≡ bytes)
    × After (did (open_new part) (ok fd)) (After (did (open_read path) (ok src)) Before) t

-- A weaker condition before it.
pub Transfers-map :
    (path part : String) (fd : ℕ) (bytes : Bytes) (P Q : List Event → Type 0) (t : List Event)
    → ((t : List Event) → P t → Q t)
    → Earlier (Transfers path part fd bytes P) t
    → Earlier (Transfers path part fd bytes Q) t
Transfers-map path part fd bytes P Q t f =
    Earlier-map (Transfers path part fd bytes P) (Transfers path part fd bytes Q) t
      λ t (src, r, w, opened). (
        src,
        r,
        w,
        After-map (did (open_new part) (ok fd)) (After (did (open_read path) (ok src)) P)
            (After (did (open_read path) (ok src)) Q) t
            (λ t. After-map (did (open_read path) (ok src)) P Q t f) opened,
      )

module _ (H : Host) {p : String} {T : List Event → Type 0} (closed : IsClosed p T) where
  -- The result of `copy_and_hash`.
  abbrev pub Hashed : (path part : String) → String × ℕ × ℕ → List Event → Type 0
  Hashed path part (sha, n, fd) t =
      (bytes : Bytes) × (sha ≡ H.sha256 bytes)
      × (n ≡ length bytes)
      × Earlier (Transfers path part fd bytes T) t

  -- The source is open, and then the copy too.
  abbrev Opened : (path : String) (src : ℕ) → List Event → Type 0
  Opened path src t = After (did (open_read path) (ok src)) T t × T t

  abbrev BothOpened : (path part : String) (src fd : ℕ) → List Event → Type 0
  BothOpened path part src fd t =
      After (did (open_new part) (ok fd)) (After (did (open_read path) (ok src)) T) t × T t

  BothOpened-IsClosed : (path part : String) (src fd : ℕ) → IsClosed p (BothOpened path part src fd)
  BothOpened-IsClosed path part src fd = with-IsClosed _ T (After-Lasts _ _) closed

  close_and_raise-Steps :
      {A : Type 0} {P : List Event → Type 0} {Q : A → List Event → Type 0} (fd : ℕ) (e : Failure)
      → ((t : List Event) → P t → T t)
      → Steps H P (close_and_raise H {A = A} fd e) Q T
  close_and_raise-Steps fd e pass =
      Steps-bind H (λ _. T) _ _
        (Steps-perform H (close fd) (λ _ t h. closed.add _ t refl (pass t h))
          (λ _ t h. closed.add _ t refl (pass t h)))
        λ _. Steps-throw H e (λ t h. h)

  open_copy-Steps :
      (path part : String) (src : ℕ)
      → Steps H
          (λ t. (read_from src t ≡ []) × Opened path src t)
          (catch (perform H (open_new part)) (close_and_raise H src))
          (λ fd. Moved H (BothOpened-IsClosed path part src fd) fd src [] [])
          T
  open_copy-Steps path part src =
      Steps-catch H (Opened path src) _ _
        (Steps-perform H (open_new part)
          (λ fd t (r, o). (rw (beq_refl fd), r, (inl (refl, o.0), closed.add _ t refl o.1)))
          (λ e t (r, o). (inr o.0, closed.add _ t refl o.1)))
        (λ e. close_and_raise-Steps src e (λ t h. h.1))

  pub copy_and_hash-Hashed :
      (fuel : ℕ) (path part : String)
      → Steps H T (copy_and_hash H fuel path part) (λ c t. Hashed path part c t × T t) T
  unfolding copy_and_hash
  copy_and_hash-Hashed fuel path part =
      Steps-bind H (λ src t. (read_from src t ≡ []) × Opened path src t) _ _
        (Steps-perform H (open_read path)
          (λ src t h. (rw (beq_refl src), (inl (refl, h), closed.add _ t refl h)))
          (λ e t h. closed.add _ t refl h))
        λ src. Steps-bind H _ _ _ (open_copy-Steps path part src) λ fd.
          let both = BothOpened-IsClosed path part src fd in
          Steps-bind H (λ (c : Bytes × ℕ) t. Earlier (Copied H both fd src c) t × T t) _ _
            (Steps-catch H T _ _
              (Steps-weaken H _ (λ t h. h) (λ c t h. (h.0, h.1.1)) (λ t h. h.1)
                (copy_contents-Copied H both fuel src fd))
              (λ e. close_and_raise-Steps fd e (λ t h. h)))
            λ (fed, n).
              Steps-pure H (H.sha256 fed, n, fd)
                (λ t (copied, h). (
                  (
                    fed,
                    refl,
                    Earlier-fact (Copied H both fd src (fed, n)) t (λ t c. c.1) copied,
                    Earlier-map (Copied H both fd src (fed, n)) (Transfers path part fd fed T) t
                        (λ t c. (src, c.0.1, c.0.0, c.0.2.0)) copied,
                  ),
                  h,
                ))

  hash_loop-Read :
      (fuel fd : ℕ) (fed : Bytes)
      → Steps H
          (λ t. (read_from fd t ≡ fed) × T t)
          (hash_loop H fuel fd fed)
          (λ fed t. (read_from fd t ≡ fed) × T t)
          T
  unfolding hash_loop
  hash_loop-Read zero fd fed = Steps-throw H _ (λ t h. h.1)
  hash_loop-Read (suc fuel) fd fed =
      Steps-bind H (λ (b : Bytes) t. (read_from fd t ≡ fed ++ b) × T t) _ _
        (Steps-perform H (read fd)
          (λ b t (r, h). (rw (beq_refl fd) (ap (λ i. i ++ b) r), closed.add _ t refl h))
          (λ e t (r, h). closed.add _ t refl h))
        λ (b : Bytes).
          Steps-if H (list_beq b []) (pure fed) _
            (λ done.
              let none_left : b ≡ [] = (list_beq_iff b []).0 done in
              Steps-pure H fed (λ t (r, h). (r ∙ ap (λ b. fed ++ b) none_left ∙ append-nil fed, h)))
            (λ more. hash_loop-Read fuel fd (fed ++ b))

  -- The hash is that of what the file gave when it was read from its start.
  pub fd_sha256-Read :
      (fuel fd : ℕ)
      → Steps H T
          (fd_sha256 H fuel fd)
          (λ sha t. (bytes : Bytes) × (sha ≡ H.sha256 bytes) × (read_from fd t ≡ bytes) × T t)
          T
  unfolding fd_sha256
  fd_sha256-Read fuel fd =
      Steps-bind H (λ _ t. (read_from fd t ≡ []) × T t) _ _
        (Steps-perform H (rewind fd) (λ _ t h. (rw (beq_refl fd), closed.add _ t refl h))
          (λ e t h. closed.add _ t refl h))
        λ _.
          Steps-bind H (λ bytes t. (read_from fd t ≡ bytes) × T t) _ _ (hash_loop-Read fuel fd [])
            (λ bytes. Steps-pure H (H.sha256 bytes) (λ t (r, h). (bytes, refl, r, h)))
