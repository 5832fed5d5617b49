-- ===== src/OutlineSync/Plan/Scoped.antt =====
-- The scope of planned calls: the groups that they create, and those that the tool may change.
use krg_infra.Prelude.{
  String, ◌<>◌, true, false, ◌||◌, none, some, List, [], ◌∷◌, ◌++◌, ◌≡◌, ◌==◌, text_eq, option_eq,
  Among, ◌⊎◌, inl, inr,
}
use krg_infra.OutlineSync.Rows.{OutlineGroup}
use krg_infra.OutlineSync.Plan.{Operation, create, is_managed}
use krg_infra.OutlineSync.Plan.Replay.{group_of}
use krg_infra.OutlineSync.Plan.Rounds.{Only}

-- A group that the tool may change: no provider of Outline's own manages it, and its external id is
-- missing, blank, or one of the tool's.
abbrev pub MayChange : String → OutlineGroup → Type 0
MayChange prefix group =
    (group.external_group ≡ false)
    × ((group.external_id == none || group.external_id == some "" || is_managed prefix group)
        ≡ true)

-- A call that is about a group that one of the calls so far creates, under an id that begins with
-- the tool's prefix, or about one that the tool may change.
abbrev pub InScope : String → List OutlineGroup → List Operation → Operation → Type 0
InScope prefix groups sofar operation =
    ((pk : String) × (name : String) × (group_of operation ≡ prefix <> pk)
      × Among (create name (prefix <> pk)) sofar)
    ⊎ ((group : OutlineGroup) × Among group groups
        × (group_of operation ≡ group.id)
        × MayChange prefix group)

-- Each of the calls is in scope at its place, itself and the calls before it being those so far.
abbrev pub Scoped : String → List OutlineGroup → (sofar operations : List Operation) → Type 0
Scoped prefix groups sofar [] = Unit
Scoped prefix groups sofar (operation ∷ operations) =
    InScope prefix groups (operation ∷ sofar) operation
    × Scoped prefix groups (operation ∷ sofar) operations

module _ (prefix : String) (groups : List OutlineGroup) where
  -- What some calls put in scope, more calls do.
  InScope-more :
      (sofar more : List Operation)
      → ((o : Operation) → Among o sofar → Among o more)
      → (operation : Operation) → InScope prefix groups sofar operation
      → InScope prefix groups more operation
  InScope-more sofar more inside operation (inl (pk, name, same, made)) =
      inl (pk, name, same, inside (create name (prefix <> pk)) made)
  InScope-more sofar more inside operation (inr known) = inr known

  Scoped-more :
      (sofar more : List Operation)
      → ((o : Operation) → Among o sofar → Among o more)
      → (operations : List Operation) → Scoped prefix groups sofar operations
      → Scoped prefix groups more operations
  Scoped-more sofar more inside [] h = tt
  Scoped-more sofar more inside (operation ∷ operations) (here, h) =
      let wider : (o : Operation) → Among o (operation ∷ sofar) → Among o (operation ∷ more) =
        λ o among. elim among [ inl same ↦ inl same | inr before ↦ inr (inside o before) ] in
      (
        InScope-more (operation ∷ sofar) (operation ∷ more) wider operation here,
        Scoped-more (operation ∷ sofar) (operation ∷ more) wider operations h,
      )

  pub Scoped-append :
      (sofar first operations : List Operation)
      → Scoped prefix groups sofar first
      → Scoped prefix groups [] operations
      → Scoped prefix groups sofar (first ++ operations)
  Scoped-append sofar [] operations h h' =
      Scoped-more [] sofar (λ o none. absurd none.1) operations h'
  Scoped-append sofar (operation ∷ first) operations (here, h) h' =
      (here, Scoped-append (operation ∷ sofar) first operations h h')

  pub Only-Scoped :
      (id : String) (sofar operations : List Operation)
      → ((operation : Operation) → group_of operation ≡ id → InScope prefix groups sofar operation)
      → Only id operations
      → Scoped prefix groups sofar operations
  Only-Scoped id sofar [] scope only = tt
  Only-Scoped id sofar (operation ∷ operations) scope (here, only) =
      let scope' : (o : Operation) → group_of o ≡ id → InScope prefix groups (operation ∷ sofar) o =
        λ o same. InScope-more sofar (operation ∷ sofar) (λ p. inr) o (scope o same) in
      (scope' operation here, Only-Scoped id (operation ∷ sofar) operations scope' only)
