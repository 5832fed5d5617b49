-- ===== src/Scratch/Overflow/Candidates/Chosen.antt =====
-- What `gather_candidates` chooses.
use krg_infra.Prelude.{
  ℕ, zero, suc, ◌+◌, ◌≤◌, String, Bool, true, false, not, ◌||◌, ◌==◌, text_eq, nat_eq, List, [],
  ◌∷◌, ◌++◌, Option, none, some, ◌≡◌, refl, All, All-append, All-Among, Among-All, if◌then◌else◌,
  Bool-cases, inl, inr, arith,
}
use krg_infra.Sorted.{IsSorted, sorted-IsSorted, sorted-Among}
use krg_infra.Effects.{ok, pure, ◌>>=◌}
use krg_infra.Scratch.Os.{
  Reply, Stat, is_regular, Event, did, lstat, is_link, list_dir, World, Host, Run, perform, Call,
}
use krg_infra.Scratch.Paths.{join}
use krg_infra.Scratch.Steps.{
  Steps, Steps-perform, Steps-pure, Steps-throw, Steps-bind, Steps-weaken, Steps-attempt,
  Steps-value,
}
use krg_infra.Scratch.Trace.{Lasts, After}
use krg_infra.Scratch.Guarding.{Anything}
use krg_infra.Scratch.Overflow.{last_use}
use krg_infra.Scratch.Overflow.Candidates.{
  Candidate, before, Filter, too_hot, is_skipped, candidate, judge, judge_all, visit_all,
  visit_listing, walk, gather_candidates,
}

-- A candidate is a regular file that is not empty and that was neither read nor written nor changed
-- in the time before `now`, and its path is none that is passed over.
pub record IsEligible (f : Filter) (c : Candidate) (st : Stat) : Type 0 where
  pub regular : is_regular st.kind ≡ true
  pub filled : 1 ≤ st.size
  pub unread : st.atime + f.min_age ≤ f.now
  pub unwritten : st.mtime + f.min_age ≤ f.now
  pub unaltered : st.ctime + f.min_age ≤ f.now
  pub wanted : is_skipped f c.path ≡ false
  pub same_size : c.size ≡ st.size
  pub same_use : c.used ≡ last_use st

before_total : (a b : Candidate) → before a b ≡ false → before b a ≡ true
before_total a b h = ground (arith, h)

module _ (f : Filter) where
  -- `lstat` has reported an eligible file at the path.
  abbrev pub IsChosen : Candidate → List Event → Type 0
  IsChosen c t = (st : Stat) × IsEligible f c st × After (did (lstat c.path) (ok st)) Anything t

  abbrev pub AllChosen : List Candidate → List Event → Type 0
  AllChosen cs t = All (λ c. IsChosen c t) cs

  AllChosen-cons :
      (cs : List Candidate) (e : Event) (t : List Event) → AllChosen cs t → AllChosen cs (e ∷ t)
  AllChosen-cons [] e t h = tt
  AllChosen-cons (c ∷ cs) e t ((st, eligible, seen), h) =
      ((st, eligible, inr seen), AllChosen-cons cs e t h)

  abbrev With : List Candidate → List Event → Type 0
  With cs t = AllChosen cs t

  With-Lasts : (cs : List Candidate) → Lasts (With cs)
  With-Lasts cs = record { add = λ e t h. AllChosen-cons cs e t h }

  candidate-AllChosen :
      (p : String) (st : Stat) (t : List Event)
      → is_skipped f p ≡ false
      → After (did (lstat p) (ok st)) Anything t
      → AllChosen (candidate f p (some st)) t
  unfolding candidate last_use
  candidate-AllChosen p st t wanted seen =
      elim (Bool-cases (not (is_regular st.kind) || st.size == 0 || too_hot f (last_use st))) [
        | inl refused ↦ rw refused tt
        | inr accepted ↦ rw accepted (
          (
            st,
            record {
              regular = ground (arith, accepted);
              filled = ground (arith, accepted);
              unread = ground (arith, accepted);
              unwritten = ground (arith, accepted);
              unaltered = ground (arith, accepted);
              wanted = wanted;
              same_size = refl;
              same_use = refl;
            },
            seen,
          ),
          tt,
        )
      ]

module _ (H : Host) (f : Filter) where
  -- An action finds chosen candidates, and those found before stay so.
  pub record Finds (m : Run H (List Candidate)) : Type 0 where
    pub at :
        (acc : List Candidate)
        → Steps H (With f acc) m (λ cs t. With f cs t × With f acc t) Anything

  -- A call in between.
  kept :
      (acc : List Candidate) (c : Call)
      → Steps H (With f acc) (perform H c) (λ _. With f acc) Anything
  kept acc c = Steps-perform H c (λ _ t h. (With-Lasts f acc).add _ t h) (λ e t h. tt)

  Finds-none : Finds (pure [])
  Finds-none = record { at = λ acc. Steps-pure H [] (λ t h. (tt, h)) }

  Finds-both :
      (m n : Run H (List Candidate))
      → Finds m
      → Finds n
      → Finds (do found ← m; rest ← n; pure (found ++ rest))
  Finds-both m n fm fn = record {
    at = λ acc. Steps-bind H _ _ _ (fm.at acc) λ found.
        Steps-bind H (λ rest t. With f rest t × (With f found t × With f acc t)) _ _
          (Steps-weaken H _ (λ t h. All-append _ found acc h.0 h.1)
            (λ rest t h. (h.0, All-split found acc t h.1)) (λ t h. h) (fn.at (found ++ acc)))
          λ rest. Steps-pure H _ (λ t h. (All-append _ found rest h.1.0 h.0, h.1.1));
  }
    where
      All-split :
          (xs ys : List Candidate) (t : List Event)
          → With f (xs ++ ys) t
          → With f xs t × With f ys t
      All-split [] ys t h = (tt, h)
      All-split (x ∷ xs) ys t (h, k) = let (a, b) = All-split xs ys t k in ((h, a), b)

  -- What the report on a path adds.
  Reported : (p : String) → List Candidate → Option Stat → List Event → Type 0
  Reported p acc none t = With f acc t
  Reported p acc (some st) t = After (did (lstat p) (ok st)) Anything t × With f acc t

  report-Finds :
      (p : String) (acc : List Candidate) (found : Option Stat)
      → is_skipped f p ≡ false
      → Steps H
          (Reported p acc found)
          (pure (candidate f p found))
          (λ cs t. With f cs t × With f acc t)
          Anything
  unfolding Reported candidate
  report-Finds p acc none wanted = Steps-pure H _ (λ t h. (tt, h))
  report-Finds p acc (some st) wanted =
      Steps-pure H _ (λ t h. (candidate-AllChosen f p st t wanted h.0, h.1))

  judge-Finds : (p : String) → Finds (judge H f p)
  unfolding judge Reported
  judge-Finds p = record {
    at = λ acc. elim (Bool-cases (is_skipped f p)) [
      | inl skipped ↦ rw skipped (Steps-pure H [] (λ t h. (tt, h)))
      | inr wanted ↦ rw wanted (
          Steps-bind H (Reported p acc) _ _
            (Steps-attempt H (Reported p acc) (With f acc) _
              (Steps-perform H (lstat p) (λ st t h. (inl (refl, tt), (With-Lasts f acc).add _ t h))
                (λ e t h. (With-Lasts f acc).add _ t h))
              (λ t h. h) (λ t h. tt))
            (λ found. report-Finds p acc found wanted))
    ];
  }

  judge_all-Finds : (root : String) (names : List String) → Finds (judge_all H f root names)
  unfolding judge_all
  judge_all-Finds root [] = Finds-none
  judge_all-Finds root (name ∷ names) =
      Finds-both _ _ (judge-Finds (join root name)) (judge_all-Finds root names)

  Finds-if :
      (b : Bool) (m n : Run H (List Candidate)) → Finds m → Finds n → Finds (if b then m else n)
  Finds-if true m n fm fn = fm
  Finds-if false m n fm fn = fn

  Finds-after :
      (c : Call) (k : Reply c → Run H (List Candidate))
      → ((a : Reply c) → Finds (k a))
      → Finds (perform H c >>= k)
  Finds-after c k fk = record { at = λ acc. Steps-bind H _ _ _ (kept acc c) (λ a. (fk a).at acc) }

  module _ (visit : String → Run H (List Candidate)) (visits : (q : String) → Finds (visit q)) where
    visit_all-Finds : (root : String) (dirs : List String) → Finds (visit_all H f visit root dirs)
    unfolding visit_all
    visit_all-Finds root [] = Finds-none
    visit_all-Finds root (d ∷ dirs) = Finds-after (is_link (join root d)) _ λ linked.
        Finds-both _ _ (Finds-if linked _ _ Finds-none (visits (join root d)))
          (visit_all-Finds root dirs)

    visit_listing-Finds :
        (root : String) (listing : Option (List String × List String))
        → Finds (visit_listing H f visit root listing)
    unfolding visit_listing
    visit_listing-Finds root none = Finds-none
    visit_listing-Finds root (some (dirs, files)) =
        Finds-both _ _ (judge_all-Finds root files) (visit_all-Finds root _)

  walk-Finds : (depth : ℕ) (root : String) → Finds (walk H f depth root)
  unfolding walk
  walk-Finds zero root = record { at = λ acc. Steps-throw H _ (λ t h. tt) }
  walk-Finds (suc depth) root = record {
    at = λ acc.
        Steps-bind H (λ _. With f acc) _ _
          (Steps-attempt H (λ _. With f acc) (With f acc) _
            (Steps-perform H (list_dir root) (λ _ t h. (With-Lasts f acc).add _ t h)
              (λ e t h. (With-Lasts f acc).add _ t h))
            (λ t h. h) (λ t h. tt))
          (λ listing.
            (visit_listing-Finds (walk H f depth) (walk-Finds depth) root listing).at acc);
  }

  gather-Steps :
      (depth : ℕ) (scratch : String)
      → Steps H
          (With f [])
          (gather_candidates H f depth scratch)
          (λ cs t. IsSorted before cs × AllChosen f cs t)
          Anything
  unfolding gather_candidates
  gather-Steps depth scratch =
      Steps-bind H (λ cs t. With f cs t × With f [] t) _ _ ((walk-Finds depth scratch).at [])
        λ cs. Steps-pure H _ (λ t h. (
          sorted-IsSorted before before_total cs,
          All-Among _ _ (λ c among.
              Among-All (λ c. IsChosen f c t) cs c h.0 (sorted-Among before cs c among)),
        ))

  -- If `gather_candidates` returns a list, then it is in order: coldest first, and of files that
  -- were last used at one time the bigger first. And for each candidate `lstat` has reported, at its
  -- path, a regular file that is not empty, whose access, modification and change are at least the
  -- minimal age before now, and whose path is none that is passed over; the size and the last use of
  -- the candidate are those of that report.
  pub gather_candidates-IsChosen :
      (depth : ℕ) (scratch : String) (w : World H) (cs : List Candidate)
      → (gather_candidates H f depth scratch w).0 ≡ ok cs
      → IsSorted before cs × AllChosen f cs (gather_candidates H f depth scratch w).1.trace
  gather_candidates-IsChosen depth scratch w cs e =
      Steps-value H (With f []) Anything _ _ (gather-Steps depth scratch) w cs tt e
