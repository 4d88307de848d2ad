-- ===== src/Collector/Registry.antt =====
-- internal/collector/registry.go, with the Collector and Factory of collector.go. A factory is what
-- its call gives; `none` is a nil function, and a nil collector without an error.
use aws_cost_exporter.Base.{
  ◌≡◌, refl, sym, subst, ◌∙◌, true, false, ◌||◌, not, List, [], ◌∷◌, ◌++◌, map, Option, none, some,
  All, arith, ◌=?◌, Bool-cases, inl, inr,
}
use aws_cost_exporter.Base.Text.{Text, text_same, trim_space, is_empty}
use aws_cost_exporter.Base.Dict.{Dict, find, has, put, find-put}
use aws_cost_exporter.Domain.Identity.{CollectorId, is_valid}
use aws_cost_exporter.Domain.Period.{Time}
use aws_cost_exporter.Errors.{
  Result, ok, Error, ◌>>=◌, ◌>>◌, fail_if, or_fail, bind_ok, check_passed, ok_injective,
  invalid_registration, duplicate_registration, unknown_collector,
}
use aws_cost_exporter.Snapshot.{Snapshot}

-- The interface Collector
pub record Collector : Type 0 where
  pub id : CollectorId
  pub refresh : Time → Result Snapshot

abbrev pub Factory : Type 0
Factory = Result (Option Collector)

-- `Registry`, by its map
abbrev pub Registry : Type 0
Registry = Dict Text Factory

-- `NewRegistry`
abbrev pub new_registry : Registry
new_registry = []

-- `Register`
unfoldable pub register : Registry → Text → Option Factory → Result Registry
register registry name factory = do
  let trimmed = trim_space name
  fail_if (is_empty trimmed) invalid_registration
  made ← or_fail factory invalid_registration
  fail_if (has trimmed registry) duplicate_registration
  ok (put trimmed made registry)

-- What Build does with one name
unfoldable pub build_one : Registry → Text → Result Collector
build_one registry name = do
  factory ← or_fail (find name registry) unknown_collector
  product ← factory
  instance' ← or_fail product invalid_registration
  fail_if (not (is_valid instance'.id) || not (instance'.id.name =? name)) invalid_registration
  ok instance'

-- `Build`
unfoldable pub build : Registry → List Text → Result (List Collector)
build registry [] = ok []
build registry (name ∷ names) = do
  first ← build_one registry name
  rest ← build registry names
  ok (first ∷ rest)

or_fail_ok : {A : Type 0} (a : Option A) (e : Error) (v : A) → or_fail a e ≡ ok v → a ≡ some v
or_fail_ok none e v h = cc
or_fail_ok (some a) e v h = cc

-- What a successful build of one name returns.
build_one-named :
    (registry : Registry) (name : Text) (c : Collector)
    → build_one registry name ≡ ok c
    → (is_valid c.id ≡ true) × (c.id.name ≡ name)
unfolding build_one
build_one-named registry name c h =
    let (factory, _, h1) = bind_ok (or_fail (find name registry) unknown_collector) _ h in
    let (product, _, h2) = bind_ok factory _ h1 in
    let (made, _, h3) = bind_ok (or_fail product invalid_registration) _ h2 in
    let (good, h4) = check_passed (not (is_valid made.id) || not (made.id.name =? name)) _ _ h3 in
    subst (λ (m : Collector). (is_valid m.id ≡ true) × (m.id.name ≡ name)) (ok_injective h4)
      (ground (arith, good), ground (arith, good, text_same.same_iff made.id.name name))

-- Build returns one collector for each requested name, in the order of the names, and each has a
-- valid identity.
pub build-named :
    (registry : Registry) (names : List Text) (built : List Collector)
    → build registry names ≡ ok built
    → (map (λ c. c.id.name) built ≡ names) × All (λ c. is_valid c.id ≡ true) built
unfolding build
build-named registry [] built h =
    subst (λ b. (map (λ (c : Collector). c.id.name) b ≡ []) × All (λ c. is_valid c.id ≡ true) b)
      (ok_injective h) (refl, tt)
build-named registry (name ∷ names) built h =
    let (first, one, h1) = bind_ok (build_one registry name) _ h in
    let (rest, others, h2) = bind_ok (build registry names) _ h1 in
    let (valid, named) = build_one-named registry name first one in
    let (in_order, all_valid) = build-named registry names rest others in
    subst
      (λ b.
        (map (λ (c : Collector). c.id.name) b ≡ name ∷ names) × All (λ c. is_valid c.id ≡ true) b)
      (ok_injective h2) (ground (arith, named, in_order), (valid, all_valid))

-- What a lookup finds is still found after another name is registered.
registered_kept :
    (registry : Registry) (trimmed name : Text) (made factory : Factory)
    → has trimmed registry ≡ false
    → find name registry ≡ some factory
    → find name (put trimmed made registry) ≡ some factory
unfolding has
registered_kept registry trimmed name made factory fresh found =
    find-put trimmed name made registry ∙ elim (Bool-cases (trimmed =? name)) [
      | inl e ↦
          let there =
            subst (λ n. find n registry ≡ some factory)
              (sym ((text_same.same_iff trimmed name).0 e)) found in
          ground (arith, fresh, there)
      | inr e ↦ rw e found
    ]

register_ok :
    (registry after : Registry) (name : Text) (made : Factory)
    → register registry name (some made) ≡ ok after
    → (has (trim_space name) registry ≡ false) × (put (trim_space name) made registry ≡ after)
unfolding register
register_ok registry after name made h =
    let (_, h1) = check_passed (is_empty (trim_space name)) _ _ h in
    let (fresh, h2) = check_passed (has (trim_space name) registry) _ _ h1 in
    (fresh, ok_injective h2)

build_one_kept :
    (registry after : Registry) (name other : Text) (made : Factory) (c : Collector)
    → register registry name (some made) ≡ ok after
    → build_one registry other ≡ ok c
    → build_one after other ≡ ok c
unfolding build_one
build_one_kept registry after name other made c h one =
    let (fresh, wrote) = register_ok registry after name made h in
    let (factory, found, rest) = bind_ok (or_fail (find other registry) unknown_collector) _ one in
    let there = or_fail_ok (find other registry) unknown_collector factory found in
    let kept = registered_kept registry (trim_space name) other made factory fresh there in
    subst (λ r. build_one r other ≡ ok c) wrote (rw kept rest)

build_one_new :
    (registry after : Registry) (name : Text) (c : Collector)
    → register registry name (some (ok (some c))) ≡ ok after
    → is_valid c.id ≡ true
    → c.id.name ≡ trim_space name
    → build_one after (trim_space name) ≡ ok c
unfolding build_one
build_one_new registry after name c h valid named =
    let (_, wrote) = register_ok registry after name (ok (some c)) h in
    let trimmed = trim_space name in
    let same = (text_same.same_iff trimmed trimmed).1 refl in
    let there : find trimmed (put trimmed (ok (some c)) registry) ≡ some (ok (some c)) =
      find-put trimmed trimmed (ok (some c)) registry ∙ rw same refl in
    let matches = (text_same.same_iff c.id.name trimmed).1 named in
    subst (λ r. build_one r trimmed ≡ ok c) wrote (rw (there, valid, matches) refl)

-- After a collector with a valid identity has been registered under its own name, Build of any names
-- that could be built before and of the new name after them returns the collectors that it returned
-- before and then the new one.
pub register-build :
    (registry after : Registry) (name : Text) (c : Collector) (names : List Text)
    (built : List Collector)
    → register registry name (some (ok (some c))) ≡ ok after
    → is_valid c.id ≡ true
    → c.id.name ≡ trim_space name
    → build registry names ≡ ok built
    → build after (names ++ trim_space name ∷ []) ≡ ok (built ++ c ∷ [])
unfolding build
register-build registry after name c [] built h valid named made =
    let one = build_one_new registry after name c h valid named in
    subst (λ b. build after (trim_space name ∷ []) ≡ ok (b ++ c ∷ [])) (ok_injective made)
      (rw one refl)
register-build registry after name c (other ∷ names) built h valid named made =
    let (first, one, h1) = bind_ok (build_one registry other) _ made in
    let (rest, others, h2) = bind_ok (build registry names) _ h1 in
    let kept = build_one_kept registry after name other (ok (some c)) first h one in
    let tail = register-build registry after name c names rest h valid named others in
    subst (λ b. build after (other ∷ names ++ trim_space name ∷ []) ≡ ok (b ++ c ∷ []))
      (ok_injective h2) (rw (kept, tail) refl)
