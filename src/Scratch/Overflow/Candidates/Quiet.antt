-- ===== src/Scratch/Overflow/Candidates/Quiet.antt =====
-- `gather_candidates` only asks.
use krg_infra.Prelude.{
  ℕ, zero, suc, String, text_eq, nat_eq, List, [], ◌∷◌, Option, none, some, refl,
}
use krg_infra.Effects.Triple.{Keeps, Keeps-bind, Keeps-if, Keeps-pure, Keeps-throw, keeps_rules}
use krg_infra.Scratch.Os.{Event, Host, Run, is_link}
use krg_infra.Scratch.Paths.{join}
use krg_infra.Scratch.Steps.{Traced, Keeps-attempt}
use krg_infra.Scratch.Trace.{IsAsked}
use krg_infra.Scratch.Overflow.Candidates.{
  Candidate, Filter, judge, judge_all, visit_all, visit_listing, walk, gather_candidates,
}

module _ (H : Host) {T : List Event → Type 0} (asked : IsAsked H T) where
  module _ (f : Filter) where
    Keeps-judge : (q : String) → Keeps (Traced H T) (judge H f q)
    unfolding judge
    Keeps-judge q = search (keeps_rules, Keeps-attempt, asked.at) depth 8

    Keeps-judge_all :
        (root : String) (names : List String) → Keeps (Traced H T) (judge_all H f root names)
    unfolding judge_all
    Keeps-judge_all root [] = Keeps-pure []
    Keeps-judge_all root (name ∷ names) =
        Keeps-bind _ _ (Keeps-judge (join root name))
          λ found. Keeps-bind _ _ (Keeps-judge_all root names) λ rest. Keeps-pure _

    module _ (visit : String → Run H (List Candidate))
        (visits : (q : String) → Keeps (Traced H T) (visit q)) where
      Keeps-visit_all :
          (root : String) (dirs : List String) → Keeps (Traced H T) (visit_all H f visit root dirs)
      unfolding visit_all
      Keeps-visit_all root [] = Keeps-pure []
      Keeps-visit_all root (d ∷ dirs) =
          Keeps-bind _ _ (asked.at (is_link (join root d)) refl) λ linked.
            Keeps-bind _ _ (Keeps-if linked _ _ (Keeps-pure []) (visits (join root d)))
              λ found. Keeps-bind _ _ (Keeps-visit_all root dirs) λ rest. Keeps-pure _

      Keeps-visit_listing :
          (root : String) (listing : Option (List String × List String))
          → Keeps (Traced H T) (visit_listing H f visit root listing)
      unfolding visit_listing
      Keeps-visit_listing root none = Keeps-pure []
      Keeps-visit_listing root (some (dirs, files)) =
          Keeps-bind _ _ (Keeps-judge_all root files)
            λ found. Keeps-bind _ _ (Keeps-visit_all root _) λ below. Keeps-pure _

    Keeps-walk : (depth : ℕ) (root : String) → Keeps (Traced H T) (walk H f depth root)
    unfolding walk
    Keeps-walk zero root = Keeps-throw _
    Keeps-walk (suc depth) root =
        Keeps-bind _ _ (search (keeps_rules, Keeps-attempt, asked.at))
          (Keeps-visit_listing (walk H f depth) (Keeps-walk depth) root)

    pub Keeps-gather_candidates :
        (depth : ℕ) (scratch : String) → Keeps (Traced H T) (gather_candidates H f depth scratch)
    unfolding gather_candidates
    Keeps-gather_candidates depth scratch =
        Keeps-bind _ _ (Keeps-walk depth scratch) λ cands. Keeps-pure _
