-- ===== src/Drift/Report/Tagged.antt =====
-- The result of a resource and its gauge agree.
use krg_infra.Prelude.{
  ◌+◌, String, false, List, [], ◌∷◌, ◌++◌, ◌==◌, ◌≡◌, ◌≢◌, refl, ap, sym, ◌∙◌, subst, ◌↔◌, text_eq,
  nat_eq, map, length, All, arith, not,
}
use krg_infra.Effects.{Result, ok, raised}
use krg_infra.Effects.Fallible.{◌>>=◌, Gives, Gives-bind, Gives-if, Gives-weaken, Gives-ok}
use krg_infra.Drift.Parsers.{Failure, caught, uncaught}
use krg_infra.Drift.State.{Spec, Snapshot, Drift}
use krg_infra.Drift.Diffs.Tagged.{
  Tagged, diff_shares-Tagged, diff_smb-Tagged, diff_nfs-Tagged, diff_acls-Tagged,
}
use krg_infra.Drift.Report.{
  Files, Resource, shares, smb, nfs, acls, resources, resource_name, Status, drifted, Results,
  or_failed, status_of, diff, check_one, check_all, run, count, gauge, has_work, spec_path,
  snapshot_path,
}

diff-Tagged :
    (F : Files) (r : Resource) (spec : Spec) (snap : Snapshot)
    → Gives (Tagged (resource_name r)) (diff F r spec snap)
diff-Tagged F shares spec snap = diff_shares-Tagged spec snap
diff-Tagged F smb spec snap = diff_smb-Tagged F.json_loads spec snap
diff-Tagged F nfs spec snap = diff_nfs-Tagged F.json_loads spec snap
diff-Tagged F acls spec snap = diff_acls-Tagged spec snap

-- What is found of a resource: drifts of its own, and a result that says whether there are some.
abbrev Owned : Resource → Status × List Drift → Type 0
Owned r p = Tagged (resource_name r) p.1 × ((p.0 ≡ drifted) ↔ (length p.1 ≢ 0))

or_failed-Owned :
    {A : Type 0} (r : Resource) (m : Result Failure A)
    (f : A → Result Failure (Status × List Drift))
    → Gives (λ a. Gives (Owned r) (f a)) m
    → Gives (Owned r) (or_failed m f)
or_failed-Owned r (ok a) f h = h
or_failed-Owned r (raised caught) f h = (tt, (λ e. cc, λ some_drift. absurd (some_drift refl)))
or_failed-Owned r (raised uncaught) f h = tt

status_of-Owned :
    (r : Resource) (ds : List Drift) → Tagged (resource_name r) ds → Owned r (status_of ds, ds)
status_of-Owned r [] h = (tt, (λ e. cc, λ some_drift. absurd (some_drift refl)))
status_of-Owned r (d ∷ ds) h = (h, (λ e. omega arith, λ some_drift. refl))

Gives-each {ℓ κ} : {E A : Type ℓ} (P : A → Type κ) (m : Result E A) → ((a : A) → P a) → Gives P m
Gives-each P (ok a) h = h a
Gives-each P (raised e) h = tt

check_one-Owned :
    (F : Files) (spec_dir snapshot_dir host : String) (r : Resource)
    → Gives (Owned r) (check_one F spec_dir snapshot_dir host r)
unfolding check_one
check_one-Owned F spec_dir snapshot_dir host r =
    or_failed-Owned r (F.spec_at (spec_path F spec_dir snapshot_dir host r)) _ (
      Gives-each _ (F.spec_at (spec_path F spec_dir snapshot_dir host r)) (λ spec.
        Gives-if (Owned r) (not (has_work r spec)) _ _ (λ idle. status_of-Owned r [] tt)
          (λ busy.
            Gives-if (Owned r) (not (F.exists (snapshot_path F spec_dir snapshot_dir host r))) _ _
              (λ absent. (tt, (λ e. cc, λ some_drift. absurd (some_drift refl))))
              (λ there.
                or_failed-Owned r
                  (F.snapshot_at (snapshot_path F spec_dir snapshot_dir host r) >>= diff F r spec) _
                  (Gives-bind (λ snap. Unit {0}) (λ found. Owned r (status_of found, found))
                    (F.snapshot_at (snapshot_path F spec_dir snapshot_dir host r)) (diff F r spec)
                    (Gives-each _ _ (λ snap. tt))
                    (λ snap u.
                      Gives-weaken (Tagged (resource_name r)) _ (diff F r spec snap)
                        (λ found. status_of-Owned r found) (diff-Tagged F r spec snap)))))))

count-append : (n : String) (xs ys : List Drift) → count n (xs ++ ys) ≡ count n xs + count n ys
count-append n [] ys = omega arith
count-append n (x ∷ xs) ys = ground (arith, count-append n xs ys)

count_own : (n : String) (ds : List Drift) → Tagged n ds → count n ds ≡ length ds
count_own n [] h = refl
count_own n (d ∷ ds) h = ground (arith, text_eq.equal_iff d.resource n, count_own n ds)

count_other : (m n : String) (ds : List Drift) → (m == n) ≡ false → Tagged m ds → count n ds ≡ 0
count_other m n [] other h = refl
count_other m n (d ∷ ds) other (here, h) =
    let apart : (d.resource == n) ≡ false = ap (λ k. k == n) here ∙ other in
    ground (arith, count_other m n ds other h)

beq_sym_false : (a b : String) → (a == b) ≡ false → (b == a) ≡ false
beq_sym_false a b h = ground (arith, text_eq.equal_iff a b, text_eq.equal_iff b a)

-- No name of the resources is `n`.
abbrev Apart : String → List Resource → Type 0
Apart n rs = All (λ q. (resource_name q == n) ≡ false) rs

abbrev DistinctNames : List Resource → Type 0
DistinctNames [] = Unit
DistinctNames (r ∷ rs) = Apart (resource_name r) rs × DistinctNames rs

abbrev Agrees : List Drift → Resource × Status → Type 0
Agrees drifts p = (p.1 ≡ drifted) ↔ (count (resource_name p.0) drifts ≢ 0)

-- A result for each resource, which says whether it has drifts, and no drift of another name.
abbrev Reported : List Resource → Results × List Drift → Type 0
Reported rs out =
    All (Agrees out.1) out.0
    × (map (λ p. p.0) out.0 ≡ rs)
    × ((n : String) → Apart n rs → count n out.1 ≡ 0)

count_apart :
    (r : Resource) (n : String) (found drifts : List Drift)
    → (resource_name r == n) ≡ false
    → Tagged (resource_name r) found
    → count n (found ++ drifts) ≡ count n drifts
count_apart r n found drifts other own =
    let split = count-append n found drifts in
    let none_of = count_other (resource_name r) n found other own in omega (arith, split, none_of)

-- Drifts of another resource do not count.
later-Agrees :
    (r : Resource) (found drifts : List Drift) (results : Results)
    → Tagged (resource_name r) found
    → Apart (resource_name r) (map (λ p. p.0) results)
    → All (Agrees drifts) results
    → All (Agrees (found ++ drifts)) results
later-Agrees r found drifts [] own apart h = tt
later-Agrees r found drifts ((q, s) ∷ results) own (here, apart) (agrees, h) =
    let n = resource_name q in
    let same = count_apart r n found drifts (beq_sym_false n (resource_name r) here) own in
    (
      subst (λ k. (s ≡ drifted) ↔ (k ≢ 0)) (sym same) agrees,
      later-Agrees r found drifts results own apart h,
    )

step-Reported :
    (r : Resource) (status : Status) (found : List Drift) (rs : List Resource) (results : Results)
    (drifts : List Drift)
    → Apart (resource_name r) rs
    → Owned r (status, found)
    → Reported rs (results, drifts)
    → Reported (r ∷ rs) ((r, status) ∷ results, found ++ drifts)
step-Reported r status found rs results drifts apart (own, says) (agrees, same_keys, others) =
    let split = count-append (resource_name r) found drifts in
    let all_own = count_own (resource_name r) found own in
    let no_other = others (resource_name r) apart in
    let own_count : count (resource_name r) (found ++ drifts) ≡ length found =
      omega (arith, split, all_own, no_other) in
    let apart_keys = subst (Apart (resource_name r)) (sym same_keys) apart in
    (
      (
        subst (λ k. (status ≡ drifted) ↔ (k ≢ 0)) (sym own_count) says,
        later-Agrees r found drifts results own apart_keys agrees,
      ),
      ap (λ ks. r ∷ ks) same_keys,
      λ n (other, apart_n). count_apart r n found drifts other own ∙ others n apart_n,
    )

check_all-Reported :
    (F : Files) (spec_dir snapshot_dir host : String) (rs : List Resource)
    → DistinctNames rs
    → Gives (Reported rs) (check_all F spec_dir snapshot_dir host rs)
unfolding check_all
check_all-Reported F spec_dir snapshot_dir host [] distinct = (tt, refl, λ n apart. refl)
check_all-Reported F spec_dir snapshot_dir host (r ∷ rs) (apart, distinct) =
    Gives-bind (Owned r) (Reported (r ∷ rs)) (check_one F spec_dir snapshot_dir host r) _
      (check_one-Owned F spec_dir snapshot_dir host r)
      (λ (status, found) owned.
        Gives-bind (Reported rs) (Reported (r ∷ rs)) (check_all F spec_dir snapshot_dir host rs) _
          (check_all-Reported F spec_dir snapshot_dir host rs distinct)
          (λ (results, drifts) reported.
            step-Reported r status found rs results drifts apart owned reported))

All-imply :
    {A : Type 0} (P Q : A → Type 0) (xs : List A) → ((a : A) → P a → Q a) → All P xs → All Q xs
All-imply P Q [] f h = tt
All-imply P Q (x ∷ xs) f h = (f x h.0, All-imply P Q xs f h.1)

gauge_iff : (n : String) (drifts : List Drift) → (gauge n drifts ≡ 1) ↔ (count n drifts ≢ 0)
gauge_iff n drifts = ground (arith, nat_eq.equal_iff (count n drifts) 0)

-- If `run` ends, it has a result for each of the four resources, in their order, and a result is
-- "drift" just if the gauge of its resource in the metrics is 1.
pub run-Agrees :
    (F : Files) (spec_dir snapshot_dir host : String) (results : Results) (drifts : List Drift)
    → run F spec_dir snapshot_dir host ≡ ok (results, drifts)
    → (map (λ p. p.0) results ≡ resources)
      × All (λ p. (p.1 ≡ drifted) ↔ (gauge (resource_name p.0) drifts ≡ 1)) results
unfolding run
run-Agrees F spec_dir snapshot_dir host results drifts given =
    let (agree, same_keys, others) =
      Gives-ok (Reported resources) (check_all F spec_dir snapshot_dir host resources)
        (results, drifts) given
        (check_all-Reported F spec_dir snapshot_dir host resources distinct) in
    (same_keys, All-imply (Agrees drifts) _ results (λ p says. gauge_of p says) agree)
  where
    distinct : DistinctNames resources
    distinct = ((refl, (refl, (refl, tt))), ((refl, (refl, tt)), ((refl, tt), (tt, tt))))

    gauge_of :
        (p : Resource × Status)
        → Agrees drifts p
        → (p.1 ≡ drifted) ↔ (gauge (resource_name p.0) drifts ≡ 1)
    gauge_of p says = ground (arith, gauge_iff (resource_name p.0) drifts)
