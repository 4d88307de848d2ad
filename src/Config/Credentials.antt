-- ===== src/Config/Credentials.antt =====
-- The credential sources and roles of internal/config/validation.go. The environment is what the
-- process was started in; url.Parse and net.ParseIP stand beside it.
use aws_cost_exporter.Base.{
  Bool, true, false, ◌&&◌, ◌||◌, not, List, [], ◌∷◌, ◌++◌, if◌then◌else◌, ◌=?◌, length, ltb, ◌==◌,
  Option, none, some,
}
use aws_cost_exporter.Base.Text.{Text, text, text_same, is_empty, trim_space}
use aws_cost_exporter.Base.Dict.{Dict}
use aws_cost_exporter.Errors.{Result, ok, err, ◌>>◌, fail_if}
use aws_cost_exporter.Snapshot.Validate.{contains}
use aws_cost_exporter.Config.Schema.{
  CredentialSourceConfig, CredentialsConfig, TargetConfig, AssumeRoleConfig,
}
use aws_cost_exporter.Config.Patterns.{
  target_name, role_arn_pattern, environment_pattern, session_name_pattern, contains_text,
}
use aws_cost_exporter.Config.Strings.{at, untrimmed}

-- `url.URL`, in the fields that are read
pub record Url : Type 0 where
  pub scheme : Text
  pub has_user : Bool
  pub raw_query : Text
  pub fragment : Text
  pub host : Text
  pub path : Text

pub record Environment : Type 0 where
  pub lookup_env : Text → Option Text
  pub parse_url : Text → Option Url
  pub is_ip : Text → Bool

-- Is the variable unset, or blank?
abbrev pub blank_env : Environment → Text → Bool
blank_env env name = elim (env.lookup_env name) [
  | none ↦ true
  | some value ↦ is_empty (trim_space value)
]

-- `validateSecretEnvironment`
unfoldable pub validate_secret_environment : Environment → Text → Text → Bool → Result (Unit {0})
validate_secret_environment env path name required =
    if is_empty name && not required then ok tt else do
      fail_if (not (environment_pattern name)) (at path)
      fail_if (blank_env env name) (at path)

-- Are the fields of static credentials in use?
abbrev pub static_fields : CredentialSourceConfig → Bool
static_fields source =
    not (is_empty source.access_key_id_env)
    || not (is_empty source.secret_access_key_env)
    || not (is_empty source.session_token_env)

-- The three cases of the switch in `validateCredentialSources`
unfoldable pub validate_default_chain : Text → CredentialSourceConfig → Result (Unit {0})
validate_default_chain path source =
    fail_if (not (is_empty source.profile) || static_fields source) (at path)

unfoldable pub validate_profile : Text → CredentialSourceConfig → Result (Unit {0})
validate_profile path source = do
  fail_if (untrimmed source.profile) (at (path ++ text ".profile"))
  fail_if (static_fields source) (at path)

unfoldable pub validate_static_env : Environment → Text → CredentialSourceConfig → Result (Unit {0})
unfolding validate_secret_environment
validate_static_env env path source = do
  fail_if (not (is_empty source.profile)) (at (path ++ text ".profile"))
  validate_secret_environment env (path ++ text ".access_key_id_env") source.access_key_id_env true
  validate_secret_environment env (path ++ text ".secret_access_key_env")
      source.secret_access_key_env true
  validate_secret_environment env (path ++ text ".session_token_env") source.session_token_env false

-- The loop body of `validateCredentialSources`
unfoldable pub validate_source : Environment → Text → CredentialSourceConfig → Result (Unit {0})
unfolding validate_default_chain validate_profile validate_static_env
validate_source env name source =
    let path = text "aws.credentials.sources." ++ name in
    if not (target_name name)
    then err (at path)
    else if source.type =? text "default_chain"
    then validate_default_chain path source
    else if source.type =? text "profile"
    then validate_profile path source
    else if source.type =? text "static_env"
    then validate_static_env env path source
    else err (at (path ++ text ".type"))

unfoldable pub validate_sources : Environment → Dict Text CredentialSourceConfig → Result (Unit {0})
validate_sources env [] = ok tt
validate_sources env ((name, source) ∷ sources) = do
  validate_source env name source
  validate_sources env sources

-- `validateCredentialSources`
unfoldable pub validate_credential_sources : Environment → CredentialsConfig → Result (Unit {0})
validate_credential_sources env value = do
  fail_if (length value.sources == 0 || ltb 20 (length value.sources))
      (at (text "aws.credentials.sources"))
  validate_sources env value.sources

-- `validateAssumeRole` from the role on, with the roles seen after it
unfoldable pub validate_role :
    Environment → Text → Text → AssumeRoleConfig → List Text → Result (List Text)
validate_role env path account role roles = elim (role_arn_pattern role.role_arn) [
  | none ↦ err (at (path ++ text ".assume_role.role_arn"))
  | some owner ↦ do
    fail_if (contains_text role.role_arn (text "*")) (at (path ++ text ".assume_role.role_arn"))
    fail_if (not (owner =? account)) (at (path ++ text ".assume_role.role_arn"))
    fail_if (contains roles role.role_arn) (at (path ++ text ".assume_role.role_arn"))
    fail_if (not (environment_pattern role.external_id_env))
        (at (path ++ text ".assume_role.external_id_env"))
    fail_if (blank_env env role.external_id_env) (at (path ++ text ".assume_role.external_id_env"))
    fail_if (not (is_empty role.session_name) && not (session_name_pattern role.session_name))
        (at (path ++ text ".assume_role.session_name"))
    ok (role.role_arn ∷ roles)
]

-- `validateAssumeRole`
unfoldable pub validate_assume_role :
    Environment → Text → TargetConfig → List Text → Result (List Text)
unfolding validate_role
validate_assume_role env path target roles = elim target.credentials.assume_role [
  | none ↦ ok roles
  | some role ↦ validate_role env path target.account_id role roles
]
