-- ===== src/Config/Names.antt =====
-- The targets of a configuration that Validate accepts: their names and accounts.
use aws_cost_exporter.Base.{
  ℕ, ◌<◌, ◌≡◌, ◌&&◌, ◌||◌, inl, inr, Bool, true, false, List, [], ◌∷◌, map, All, All-mono, Any,
  arith, length, Bool-cases, every, leb, every→All,
}
use aws_cost_exporter.Base.Text.{
  Text, text, text_same, trim_space, is_empty, is_space, trim_space_inked,
}
use aws_cost_exporter.Domain.Identity.{is_valid}
use aws_cost_exporter.Errors.{ok, bind_ok}
use aws_cost_exporter.Snapshot.Labels.{Distinct, Fresh-iff}
use aws_cost_exporter.Config.Schema.{TargetConfig}
use aws_cost_exporter.Config.Collection.{Config}
use aws_cost_exporter.Config.Patterns.{target_name, lower, digit, member}
use aws_cost_exporter.Config.Strings.{any_text, validate_unique_strings}
use aws_cost_exporter.Config.Credentials.{Environment}
use aws_cost_exporter.Config.Targets.{
  Seen, none_seen, validate_each, validate_bases, validate_targets, validate,
}
use aws_cost_exporter.Config.Rounds.{
  Accepted, Loop, validate_each-Loop, validate_each-count, required_count,
}
use aws_cost_exporter.Config.Sound.{validate-parts}

name_char : (c : ℕ) → (lower c || digit c || member c (text "_-")) ≡ true → is_space c ≡ false
unfolding is_space
name_char c h = ground arith

lower_char : (c : ℕ) → lower c ≡ true → is_space c ≡ false
unfolding is_space
lower_char c h = ground arith

split_and : (a b c : Bool) → (a && b && c) ≡ true → (a ≡ true) × (b ≡ true) × (c ≡ true)
split_and a b c h = ground arith

-- The name of a target has no white space, so that with the name of a collector it is an identity.
target_name-is_valid :
    (target name : Text)
    → target_name target ≡ true
    → trim_space name ≡ name
    → is_empty name ≡ false
    → is_valid (record { target = target; name = name }) ≡ true
unfolding target_name is_valid
target_name-is_valid [] name h t e = cc
target_name-is_valid (c ∷ s) name h t e =
    let (first, _, rest) =
      split_and (lower c) (leb (length s) 31)
        (every (λ d. lower d || digit d || member d (text "_-")) s) h in
    let inked = All-mono name_char s (every→All _ s rest) in
    ground (
      arith,
      trim_space_inked (c ∷ s) (lower_char c first, inked),
      text_same.same_iff (trim_space (c ∷ s)) (c ∷ s),
      text_same.same_iff (trim_space name) name,
      t,
      e,
    )

some_required :
    (env : Environment) (c : Config) (ts : List TargetConfig)
    → All (Accepted env c) ts
    → 0 < required_count ts
    → Any (λ t. (t.required ≡ true) × (t.cost_explorer.enabled ≡ true)) ts
some_required env c [] a h = omega arith
some_required env c (t ∷ ts) a h = elim (Bool-cases t.required) [
  | inl e ↦ inl (e, a.0.required e)
  | inr e ↦ inr (some_required env c ts a.1 (ground (arith, h, e)))
]

module _ (env : Environment) (c : Config) where
  pub targets-Loop :
      validate env c ≡ ok tt
      → (after : Seen) × Loop env c c.targets none_seen after × (0 < required_count c.targets)
  unfolding validate_targets
  targets-Loop h =
      let targets = (validate-parts env c h).3 in
      let (after, looped, h1) = bind_ok (validate_each env c 0 c.targets none_seen) _ targets in
      let (_, _, h2) = bind_ok (validate_bases 0 c.collection.cost_explorer.cost_bases) _ h1 in
      let (_, _, h3) =
        bind_ok
          (validate_unique_strings (text "collection.cost_explorer.cost_bases")
            c.collection.cost_explorer.cost_bases any_text)
          _ h2 in
      let count = validate_each-count env c 0 c.targets none_seen after looped in
      (
        after,
        validate_each-Loop env c 0 c.targets none_seen after looped,
        ground (arith, count, h3),
      )

-- In an accepted configuration no two targets share a name or an account, the name of a target with
-- any trimmed collector name that is not empty is a valid collector identity, and some target is
-- required and has Cost Explorer enabled.
pub validate-names :
    (env : Environment) (c : Config)
    → validate env c ≡ ok tt
    → Distinct (map (λ t. t.name) c.targets)
      × Distinct (map (λ t. t.account_id) c.targets)
      × All
          (λ t.
            (name : Text)
            → trim_space name ≡ name
            → is_empty name ≡ false
            → is_valid (record { target = t.name; name = name }) ≡ true)
          c.targets
      × Any (λ t. (t.required ≡ true) × (t.cost_explorer.enabled ≡ true)) c.targets
validate-names env c h =
    let (after, l, required) = targets-Loop env c h in
    (
      ((Fresh-iff [] _).0 l.names).0,
      ((Fresh-iff [] _).0 l.accounts).0,
      All-mono (λ t a name. target_name-is_valid t.name name a.name) c.targets l.accepted,
      some_required env c c.targets l.accepted required,
    )
