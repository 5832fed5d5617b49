-- ===== src/Prelude/Lists.antt =====
-- Lists as Python uses them: measured by native numbers, filtered by Boolean tests.
use Prim.Native.Nat.{ℕ, suc, ◌+◌}
use mathlib.Core.Path.{◌≡◌, refl, ap, subst, ◌∙◌}
use mathlib.Core.Bool.{Bool, true, false, ◌&&◌, ◌||◌}
use mathlib.Core.Option.{Option, none, some}
use mathlib.Core.List.{List, [], ◌∷◌, ◌++◌, map}
use mathlib.Core.Logic.{◌⊎◌, inl, inr, ◌↔◌}
use native.Mathlib.Omega.{arith}
use krg_infra.Prelude.Equality.{Eq, ◌==◌, contains, if◌then◌else◌, Bool-cases}

module _ {ℓ} {A : Type ℓ} where
  -- `len(xs)`
  abbrev pub length : List A → ℕ
  length [] = 0
  length (x ∷ xs) = suc (length xs)

  -- `[x for x in xs if p(x)]`
  abbrev pub keep : (A → Bool) → List A → List A
  keep p [] = []
  keep p (x ∷ xs) = let rest = keep p xs in if p x then x ∷ rest else rest

  -- `any(p(x) for x in xs)` and `all(p(x) for x in xs)`
  abbrev pub any : (A → Bool) → List A → Bool
  any p [] = false
  any p (x ∷ xs) = p x || any p xs

  abbrev pub all : (A → Bool) → List A → Bool
  all p [] = true
  all p (x ∷ xs) = p x && all p xs

  abbrev pub All {κ} : (A → Type κ) → List A → Type κ
  All P [] = Unit
  All P (x ∷ xs) = P x × All P xs

  -- Whether an element stands in a list.
  abbrev pub Among : A → List A → Type ℓ
  Among a [] = Unit {ℓ} × ⊥
  Among a (x ∷ xs) = (x ≡ a) ⊎ Among a xs

  pub length-append : (xs ys : List A) → length (xs ++ ys) ≡ length xs + length ys
  length-append [] ys = omega arith
  length-append (x ∷ xs) ys = ground (arith, length-append xs ys)

  pub any-append : (p : A → Bool) (xs ys : List A) → any p (xs ++ ys) ≡ (any p xs || any p ys)
  any-append p [] ys = refl
  any-append p (x ∷ xs) ys = ground (arith, any-append p xs ys)

module _ {ℓ κ} {V : Type ℓ} {A : Type κ} ⦃e : Eq A⦄ where
  -- `d.get(k)` on a dict in insertion order
  abbrev pub lookup : A → List (A × V) → Option V
  lookup k [] = none
  lookup k ((j, v) ∷ d) = if j == k then some v else lookup k d

module _ {ℓ} {A : Type ℓ} ⦃e : Eq A⦄ where
  pub contains-append :
      (xs ys : List A) (a : A) → contains (xs ++ ys) a ≡ (contains xs a || contains ys a)
  contains-append [] ys a = refl
  contains-append (x ∷ xs) ys a = ground (arith, contains-append xs ys a)

  pub contains-keep :
      (p : A → Bool) (xs : List A) (a : A) → contains (keep p xs) a ≡ (contains xs a && p a)
  contains-keep p [] a = refl
  contains-keep p (x ∷ xs) a = ground (arith, contains-keep p xs a, e.equal_iff x a)

module _ {ℓ κ} {V : Type ℓ} {A : Type κ} ⦃e : Eq A⦄ where
  -- Each key stands once, as in a dict.
  abbrev pub UniqueKeys : List (A × V) → Type 0
  UniqueKeys [] = Unit
  UniqueKeys ((k, v) ∷ d) = (contains (map (λ e. e.0) d) k ≡ false) × UniqueKeys d

module _ {ℓ κ} {A : Type ℓ} (P : A → Type κ) where
  pub All-append : (xs ys : List A) → All P xs → All P ys → All P (xs ++ ys)
  All-append [] ys h k = k
  All-append (x ∷ xs) ys h k = (h.0, All-append xs ys h.1 k)

  pub All-Among : (xs : List A) → ((x : A) → Among x xs → P x) → All P xs
  All-Among [] h = tt
  All-Among (x ∷ xs) h = (h x (inl refl), All-Among xs (λ y among. h y (inr among)))

  pub Among-All : (xs : List A) (a : A) → All P xs → Among a xs → P a
  Among-All [] a h among = absurd among.1
  Among-All (x ∷ xs) a h (inl same) = subst P same h.0
  Among-All (x ∷ xs) a h (inr later) = Among-All xs a h.1 later

module _ {ℓ} {A : Type ℓ} where
  pub Among-keep :
      (p : A → Bool) (xs : List A) (a : A) → Among a (keep p xs) → Among a xs × (p a ≡ true)
  Among-keep p [] a among = absurd among.1
  Among-keep p (x ∷ xs) a among = ground (arith, Among-keep p xs a)

  pub keep-Among :
      (p : A → Bool) (xs : List A) (a : A) → Among a xs → p a ≡ true → Among a (keep p xs)
  keep-Among p [] a among h = among
  keep-Among p (x ∷ xs) a (inl same) h = let here : p x ≡ true = ap p same ∙ h in rw here (inl same)
  keep-Among p (x ∷ xs) a (inr later) h = elim (Bool-cases (p x)) [
    | inl e ↦ rw e (inr (keep-Among p xs a later h))
    | inr e ↦ rw e (keep-Among p xs a later h)
  ]

module _ {ℓ} {A B : Type ℓ} where
  pub Among-map : (f : A → B) (xs : List A) (a : A) → Among a xs → Among (f a) (map f xs)
  Among-map f [] a among = absurd among.1
  Among-map f (x ∷ xs) a (inl same) = inl (ap f same)
  Among-map f (x ∷ xs) a (inr later) = inr (Among-map f xs a later)

  pub All-map {κ} :
      (P : B → Type κ) (f : A → B) (xs : List A) → All (λ a. P (f a)) xs → All P (map f xs)
  All-map P f [] h = tt
  All-map P f (x ∷ xs) h = (h.0, All-map P f xs h.1)

module _ {ℓ} {A V : Type ℓ} ⦃e : Eq A⦄ where
  pub lookup-Among : (k : A) (v : V) (d : List (A × V)) → lookup k d ≡ some v → Among (k, v) d
  lookup-Among k v [] found = cc
  lookup-Among k v ((j, u) ∷ d) found = ground (arith, e.equal_iff j k, lookup-Among k v d)

  pub keys-Among :
      (k : A) (v : V) (d : List (A × V)) → Among (k, v) d → contains (map (λ e. e.0) d) k ≡ true
  keys-Among k v [] among = absurd among.1
  keys-Among k v ((j, u) ∷ d) (inl same) =
      let equal : j ≡ k = ap (λ e. e.0) same in ground (arith, e.equal_iff j k)
  keys-Among k v ((j, u) ∷ d) (inr later) = ground (arith, keys-Among k v d later)

  pub Among-lookup :
      (k : A) (v : V) (d : List (A × V)) → UniqueKeys d → Among (k, v) d → lookup k d ≡ some v
  Among-lookup k v [] unique among = absurd among.1
  Among-lookup k v ((j, u) ∷ d) unique (inl same) =
      let equal : j ≡ k = ap (λ e. e.0) same in
      let equal' : u ≡ v = ap (λ e. e.1) same in ground (arith, e.equal_iff j k)
  Among-lookup k v ((j, u) ∷ d) (fresh, unique) (inr later) =
      let there = keys-Among k v d later in
      ground (arith, e.equal_iff j k, Among-lookup k v d unique later)

module _ {ℓ} {A V : Type ℓ} where
  pub Among-unmap :
      (v : V) (d : List (A × V)) → Among v (map (λ e. e.1) d) → (k : A) × Among (k, v) d
  Among-unmap v [] among = absurd among.1
  Among-unmap v ((k, u) ∷ d) (inl same) = (k, inl (ap (λ u. (k, u)) same))
  Among-unmap v ((k, u) ∷ d) (inr later) =
      let (k', there) = Among-unmap v d later in (k', inr there)

module _ {ℓ} {A : Type ℓ} (p : A → Bool) where
  pub any-Among : (xs : List A) → any p xs ≡ true → (x : A) × Among x xs × (p x ≡ true)
  any-Among [] h = cc
  any-Among (x ∷ xs) h = elim (Bool-cases (p x)) [
    | inl yes_x ↦ (x, inl refl, yes_x)
    | inr no_x ↦
        let later : any p xs ≡ true = ground arith in
        let (y, there, yes_y) = any-Among xs later in (y, inr there, yes_y)
  ]

  pub Among-any : (xs : List A) (x : A) → Among x xs → p x ≡ true → any p xs ≡ true
  Among-any [] x among h = absurd among.1
  Among-any (y ∷ xs) x (inl same) h = let here : p y ≡ true = ap p same ∙ h in ground arith
  Among-any (y ∷ xs) x (inr later) h = ground (arith, Among-any xs x later h)

module _ {ℓ} {A : Type ℓ} ⦃e : Eq A⦄ where
  pub contains-Among : (xs : List A) (a : A) → (contains xs a ≡ true) ↔ Among a xs
  contains-Among [] a = (λ h. cc, λ among. absurd among.1)
  contains-Among (x ∷ xs) a = ground (arith, e.equal_iff x a, contains-Among xs a)
