-- ===== src/Config/Rounds.antt =====
-- What validateTargets has checked of the targets when it succeeds.
use aws_cost_exporter.Base.{
  ℕ, suc, ◌+◌, ◌≡◌, sym, ap, subst, ◌&&◌, Bool, true, false, not, List, [], ◌∷◌, ◌++◌, map, All,
  arith, if◌then◌else◌,
}
use aws_cost_exporter.Base.Text.{text, text_same}
use aws_cost_exporter.Base.Dict.{has}
use aws_cost_exporter.Errors.{ok, bind_ok, check_passed, ok_injective}
use aws_cost_exporter.Snapshot.Validate.{contains}
use aws_cost_exporter.Snapshot.Labels.{Fresh}
use aws_cost_exporter.Config.Schema.{TargetConfig}
use aws_cost_exporter.Config.Collection.{Config}
use aws_cost_exporter.Config.Patterns.{target_name, account_id_pattern}
use aws_cost_exporter.Config.Strings.{at_index}
use aws_cost_exporter.Config.Credentials.{Environment, validate_assume_role}
use aws_cost_exporter.Config.Targets.{
  Seen, integrations, direct_source, validate_settings, validate_target, validate_each,
}

-- One round that succeeds found the target's own settings valid, its name and account new, and adds
-- them to what was seen.
pub record Round (env : Environment) (value : Config) (index : ℕ) (t : TargetConfig)
    (seen after : Seen) : Type 0 where
  pub name : target_name t.name ≡ true
  pub new_name : contains seen.names t.name ≡ false
  pub account : account_id_pattern t.account_id ≡ true
  pub new_account : contains seen.accounts t.account_id ≡ false
  pub integrated : integrations t ≡ true
  pub required : t.required ≡ true → t.cost_explorer.enabled ≡ true
  pub settings : validate_settings env value (at_index (text "targets") index) t ≡ ok tt
  pub names : after.names ≡ t.name ∷ seen.names
  pub accounts : after.accounts ≡ t.account_id ∷ seen.accounts
  pub count :
      after.required_cost_targets ≡ (if t.required then 1 else 0) + seen.required_cost_targets

was_true : (b : Bool) → not b ≡ false → b ≡ true
was_true b h = ground arith

pub validate_target-Round :
    (env : Environment) (value : Config) (index : ℕ) (t : TargetConfig) (seen after : Seen)
    → validate_target env value index t seen ≡ ok after
    → Round env value index t seen after
unfolding validate_target
validate_target-Round env value index t seen after h =
    let (a1, h1) = check_passed (not (target_name t.name)) _ _ h in
    let (a2, h2) = check_passed (contains seen.names t.name) _ _ h1 in
    let (a3, h3) = check_passed (not (account_id_pattern t.account_id)) _ _ h2 in
    let (a4, h4) = check_passed (contains seen.accounts t.account_id) _ _ h3 in
    let (a5, h5) = check_passed (not (target_name t.credentials.source)) _ _ h4 in
    let (a6, h6) =
      check_passed (not (has t.credentials.source value.aws.credentials.sources)) _ _ h5 in
    let (a7, h7) = check_passed (not (integrations t)) _ _ h6 in
    let (a8, h8) = check_passed (t.required && not t.cost_explorer.enabled) _ _ h7 in
    let path = at_index (text "targets") index in
    let (roles, _, h9) =
      bind_ok (validate_assume_role env (path ++ text ".credentials") t seen.roles) _ h8 in
    let (direct, _, h10) = bind_ok (direct_source path t seen.direct_sources) _ h9 in
    let (_, settings, made) = bind_ok (validate_settings env value path t) _ h10 in
    let e = sym (ok_injective made) in
    record {
      name = was_true (target_name t.name) a1;
      new_name = a2;
      account = was_true (account_id_pattern t.account_id) a3;
      new_account = a4;
      integrated = was_true (integrations t) a7;
      required = λ r. ground (arith, a8, r);
      settings = settings;
      names = ap (λ (s : Seen). s.names) e;
      accounts = ap (λ (s : Seen). s.accounts) e;
      count = ap (λ (s : Seen). s.required_cost_targets) e;
    }

-- What holds of each target that was accepted, whatever its index.
pub record Accepted (env : Environment) (value : Config) (t : TargetConfig) : Type 0 where
  pub name : target_name t.name ≡ true
  pub account : account_id_pattern t.account_id ≡ true
  pub integrated : integrations t ≡ true
  pub required : t.required ≡ true → t.cost_explorer.enabled ≡ true
  pub settings :
      (index : ℕ) × (validate_settings env value (at_index (text "targets") index) t ≡ ok tt)

-- What the loop has checked of the targets that it went along.
pub record Loop (env : Environment) (value : Config) (ts : List TargetConfig) (seen after : Seen)
    : Type 0 where
  pub accepted : All (Accepted env value) ts
  pub names : Fresh seen.names (map (λ t. t.name) ts)
  pub accounts : Fresh seen.accounts (map (λ t. t.account_id) ts)

pub validate_each-Loop :
    (env : Environment) (value : Config) (index : ℕ) (ts : List TargetConfig) (seen after : Seen)
    → validate_each env value index ts seen ≡ ok after
    → Loop env value ts seen after
unfolding validate_each
validate_each-Loop env value index [] seen after h = record {
  accepted = tt;
  names = tt;
  accounts = tt;
}
validate_each-Loop env value index (t ∷ ts) seen after h =
    let (next, one, rest) = bind_ok (validate_target env value index t seen) _ h in
    let r = validate_target-Round env value index t seen next one in
    let l = validate_each-Loop env value (suc index) ts next after rest in
    record {
      accepted = (
        record {
          name = r.name;
          account = r.account;
          integrated = r.integrated;
          required = r.required;
          settings = (index, r.settings);
        },
        l.accepted,
      );
      names = (
        r.new_name,
        subst (λ s. Fresh s (map (λ (t : TargetConfig). t.name) ts)) r.names l.names,
      );
      accounts = (
        r.new_account,
        subst (λ s. Fresh s (map (λ (t : TargetConfig). t.account_id) ts)) r.accounts l.accounts,
      );
    }

-- The count of required targets is that of the ones that are marked so.
abbrev pub required_count : List TargetConfig → ℕ
required_count [] = 0
required_count (t ∷ ts) = (if t.required then 1 else 0) + required_count ts

pub validate_each-count :
    (env : Environment) (value : Config) (index : ℕ) (ts : List TargetConfig) (seen after : Seen)
    → validate_each env value index ts seen ≡ ok after
    → after.required_cost_targets ≡ required_count ts + seen.required_cost_targets
unfolding validate_each
validate_each-count env value index [] seen after h =
    omega (arith, ap (λ (s : Seen). s.required_cost_targets) (sym (ok_injective h)))
validate_each-count env value index (t ∷ ts) seen after h =
    let (next, one, rest) = bind_ok (validate_target env value index t seen) _ h in
    let r = (validate_target-Round env value index t seen next one).count in
    omega (arith, validate_each-count env value (suc index) ts next after rest, r)
