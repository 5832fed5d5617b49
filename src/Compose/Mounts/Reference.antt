-- ===== src/Compose/Mounts/Reference.antt =====
-- `mount_fingerprints` without its cache, and what `mounts_changed` answers.
use text.Mathlib.Text.{starts_with}
use text.Mathlib.TextEquality.{eq_iff}
use krg_infra.Prelude.{
  String, ◌<>◌, Bool, true, false, ◌&&◌, Option, none, some, List, [], ◌∷◌, ◌≡◌, inl, inr, refl,
  arith, if◌then◌else◌, text_eq, nat_eq, list_eq, option_eq, lookup, map, All, Option-cases,
}
use krg_infra.Text.{text_le}
use krg_infra.Sorted.{sorted}
use krg_infra.Compose.Docker.{Volume, Specs, Mounts}
use krg_infra.Compose.Mounts.{
  store_path, Files, bind_source, Cache, cached, fingerprint, fingerprints_of,
  mount_fingerprints_from, mount_fingerprints,
}

-- The sources of a service's bind mounts.
abbrev pub bind_sources : List Volume → List String
bind_sources [] = []
bind_sources (v ∷ volumes) =
    let rest = bind_sources volumes in elim (bind_source v) [ none ↦ rest | some s ↦ s ∷ rest ]

module _ (files : Files) where
  -- What is at a source: the hash of its content in the store, its resolved path elsewhere.
  abbrev pub identity : String → String
  identity source =
      let real = files.resolve source in
      if starts_with real store_path && files.exists real
      then "sha256:" <> files.content_hash real
      else real

  abbrev pub identities : Specs → Mounts
  identities [] = []
  identities ((svc, spec) ∷ specs) =
      (svc, sorted text_le (map identity (bind_sources spec.volumes))) ∷ identities specs

  -- Each cached hash is that of its path.
  abbrev Faithful : Cache → Type 0
  Faithful = All (λ (real, hash). hash ≡ "sha256:" <> files.content_hash real)

  lookup-Faithful :
      (cache : Cache) (real hash : String)
      → Faithful cache
      → lookup real cache ≡ some hash
      → hash ≡ "sha256:" <> files.content_hash real
  lookup-Faithful [] real hash h found = cc
  lookup-Faithful ((path, known) ∷ cache) real hash h found =
      ground (arith, eq_iff path real, lookup-Faithful cache real hash h.1)

  cached_lem :
      (real : String) (cache : Cache) (known : Option String)
      → lookup real cache ≡ known
      → Faithful cache
      → ((cached files real cache known).0 ≡ "sha256:" <> files.content_hash real)
        × Faithful (cached files real cache known).1
  cached_lem real cache none e h = (refl, (refl, h))
  cached_lem real cache (some hash) e h = (lookup-Faithful cache real hash h e, h)

  choose_lem :
      (b : Bool) (real hash : String) (cache : Cache) (found : String × Cache)
      → found.0 ≡ hash
      → Faithful found.1
      → Faithful cache
      → ((if b then found else (real, cache)).0 ≡ (if b then hash else real))
        × Faithful (if b then found else (real, cache)).1
  choose_lem true real hash cache found e f h = (e, f)
  choose_lem false real hash cache found e f h = (refl, h)

  fingerprint_lem :
      (source : String) (cache : Cache)
      → Faithful cache
      → ((fingerprint files source cache).0 ≡ identity source)
        × Faithful (fingerprint files source cache).1
  unfolding fingerprint
  fingerprint_lem source cache h =
      let real = files.resolve source in
      let (same, faithful) = cached_lem real cache (lookup real cache) refl h in
      choose_lem (starts_with real store_path && files.exists real) real
        ("sha256:" <> files.content_hash real) cache (cached files real cache (lookup real cache))
        same faithful h

  fingerprints_of_lem :
      (volumes : List Volume) (cache : Cache)
      → Faithful cache
      → ((fingerprints_of files volumes cache).0 ≡ map identity (bind_sources volumes))
        × Faithful (fingerprints_of files volumes cache).1
  unfolding fingerprints_of
  fingerprints_of_lem [] cache h = (refl, h)
  fingerprints_of_lem (v ∷ volumes) cache h = elim (Option-cases (bind_source v)) [
    | inl skipped ↦
        rw (skipped, fingerprints_of, bind_sources) (fingerprints_of_lem volumes cache h)
    | inr (source, bound) ↦
        let (first, faithful) = fingerprint_lem source cache h in
        let (others, faithful') =
          fingerprints_of_lem volumes (fingerprint files source cache).1 faithful in
        rw (bound, fingerprints_of, bind_sources) (cc, faithful')
  ]

  from_lem :
      (specs : Specs) (cache : Cache)
      → Faithful cache
      → mount_fingerprints_from files specs cache ≡ identities specs
  unfolding mount_fingerprints_from
  from_lem [] cache h = refl
  from_lem ((svc, spec) ∷ specs) cache h =
      let (same, faithful) = fingerprints_of_lem spec.volumes cache h in
      rw (same, from_lem specs (fingerprints_of files spec.volumes cache).1 faithful)

  -- The fingerprints of every service are those computed without the cache: the sorted identities
  -- of its bind mounts' sources, each the hash of what it resolves to in the store, and the
  -- resolved path elsewhere.
  pub mount_fingerprints_lem : (specs : Specs) → mount_fingerprints files specs ≡ identities specs
  unfolding mount_fingerprints
  mount_fingerprints_lem specs = from_lem specs [] tt
