-- ===== src/Sorted.antt =====
-- Python's `sorted` and `set`, for every type with a Boolean order and equality.
use krg_infra.Prelude.{
  Bool, true, false, ◌||◌, List, [], ◌∷◌, ◌≡◌, refl, arith, Eq, ◌==◌, contains, if◌then◌else◌,
  Among, UniqueKeys, map, ◌∙◌, ◌⊎◌, inl, inr,
}

module _ {ℓ} {A : Type ℓ} (le : A → A → Bool) where
  -- Puts an element before the first one that is not smaller: a stable sort inserts from the end.
  insert_sorted : A → List A → List A
  insert_sorted x [] = x ∷ []
  insert_sorted x (y ∷ ys) = if le x y then x ∷ y ∷ ys else y ∷ insert_sorted x ys

  -- `sorted(xs)`
  unfoldable pub sorted : List A → List A
  unfolding insert_sorted
  sorted [] = []
  sorted (x ∷ xs) = insert_sorted x (sorted xs)

  -- Each element is at most the next.
  abbrev pub IsSorted : List A → Type 0
  IsSorted [] = Unit
  IsSorted (x ∷ []) = Unit
  IsSorted (x ∷ y ∷ ys) = (le x y ≡ true) × IsSorted (y ∷ ys)

  module _ (total : (x y : A) → le x y ≡ false → le y x ≡ true) where
    insert_sorted-IsSorted : (x : A) (ys : List A) → IsSorted ys → IsSorted (insert_sorted x ys)
    unfolding insert_sorted
    insert_sorted-IsSorted x [] h = tt
    insert_sorted-IsSorted x (y ∷ []) h = ground (arith, total x y)
    insert_sorted-IsSorted x (y ∷ z ∷ zs) h =
        ground (arith, total x y, total x z, insert_sorted-IsSorted x (z ∷ zs) h.1)

    pub sorted-IsSorted : (xs : List A) → IsSorted (sorted xs)
    unfolding sorted
    sorted-IsSorted [] = tt
    sorted-IsSorted (x ∷ xs) = insert_sorted-IsSorted x (sorted xs) (sorted-IsSorted xs)

module _ {ℓ} {A : Type ℓ} ⦃e : Eq A⦄ where
  -- The elements of a list as a set's: each once.
  unfoldable pub dedup : List A → List A
  dedup [] = []
  dedup (x ∷ xs) = let rest = dedup xs in if contains rest x then rest else x ∷ rest

  insert_sorted-contains :
      (le : A → A → Bool) (x : A) (ys : List A) (a : A)
      → contains (insert_sorted le x ys) a ≡ (x == a || contains ys a)
  unfolding insert_sorted
  insert_sorted-contains le x [] a = refl
  insert_sorted-contains le x (y ∷ ys) a = ground (arith, insert_sorted-contains le x ys a)

  -- Sorting keeps the elements.
  pub contains-sorted :
      (le : A → A → Bool) (xs : List A) (a : A) → contains (sorted le xs) a ≡ contains xs a
  unfolding sorted
  contains-sorted le [] a = refl
  contains-sorted le (x ∷ xs) a =
      ground (arith, insert_sorted-contains le x (sorted le xs) a, contains-sorted le xs a)

  pub contains-dedup : (xs : List A) (a : A) → contains (dedup xs) a ≡ contains xs a
  unfolding dedup
  contains-dedup [] a = refl
  contains-dedup (x ∷ xs) a =
      ground (arith, contains-dedup xs a, contains-dedup xs x, e.equal_iff x a)

module _ {ℓ} {A : Type ℓ} (le : A → A → Bool) where
  insert_sorted-Among :
      (x : A) (ys : List A) (a : A) → Among a (insert_sorted le x ys) → (x ≡ a) ⊎ Among a ys
  unfolding insert_sorted
  insert_sorted-Among x [] a h = h
  insert_sorted-Among x (y ∷ ys) a h = ground (arith, insert_sorted-Among x ys a)

  -- Sorting brings no new element.
  pub sorted-Among : (xs : List A) (a : A) → Among a (sorted le xs) → Among a xs
  unfolding sorted
  sorted-Among [] a h = h
  sorted-Among (x ∷ xs) a h = elim (insert_sorted-Among x (sorted le xs) a h) [
    | inl e ↦ inl e
    | inr m ↦ inr (sorted-Among xs a m)
  ]

  insert_sorted-in :
      (x : A) (ys : List A) (a : A) → (x ≡ a) ⊎ Among a ys → Among a (insert_sorted le x ys)
  unfolding insert_sorted
  insert_sorted-in x [] a h = h
  insert_sorted-in x (y ∷ ys) a h = ground (arith, insert_sorted-in x ys a)

  -- Sorting loses no element.
  pub Among-sorted : (xs : List A) (a : A) → Among a xs → Among a (sorted le xs)
  unfolding sorted
  Among-sorted [] a h = h
  Among-sorted (x ∷ xs) a (inl same) = insert_sorted-in x (sorted le xs) a (inl same)
  Among-sorted (x ∷ xs) a (inr later) =
      insert_sorted-in x (sorted le xs) a (inr (Among-sorted xs a later))

module _ {ℓ κ} {V : Type ℓ} {A : Type κ} ⦃e : Eq A⦄ (le : A × V → A × V → Bool) where
  insert_sorted-keys :
      (x : A × V) (ys : List (A × V)) (k : A)
      → contains (map (λ e. e.0) (insert_sorted le x ys)) k
        ≡ (x.0 == k || contains (map (λ e. e.0) ys) k)
  unfolding insert_sorted
  insert_sorted-keys x [] k = refl
  insert_sorted-keys x (y ∷ ys) k = ground (arith, insert_sorted-keys x ys k)

  pub sorted-keys :
      (xs : List (A × V)) (k : A)
      → contains (map (λ e. e.0) (sorted le xs)) k ≡ contains (map (λ e. e.0) xs) k
  unfolding sorted
  sorted-keys [] k = refl
  sorted-keys (x ∷ xs) k = ground (arith, insert_sorted-keys x (sorted le xs) k, sorted-keys xs k)

  insert_sorted-UniqueKeys :
      (x : A × V) (ys : List (A × V))
      → contains (map (λ e. e.0) ys) x.0 ≡ false
      → UniqueKeys ys
      → UniqueKeys (insert_sorted le x ys)
  unfolding insert_sorted
  insert_sorted-UniqueKeys x [] new unique = (refl, tt)
  insert_sorted-UniqueKeys x (y ∷ ys) new (fresh, unique) = ground (
    arith,
    insert_sorted-UniqueKeys x ys,
    insert_sorted-keys x ys y.0,
    e.equal_iff x.0 y.0,
    e.equal_iff y.0 x.0,
  )

  pub sorted-UniqueKeys : (xs : List (A × V)) → UniqueKeys xs → UniqueKeys (sorted le xs)
  unfolding sorted
  sorted-UniqueKeys [] unique = tt
  sorted-UniqueKeys (x ∷ xs) (new, unique) =
      insert_sorted-UniqueKeys x (sorted le xs) (sorted-keys xs x.0 ∙ new)
        (sorted-UniqueKeys xs unique)
