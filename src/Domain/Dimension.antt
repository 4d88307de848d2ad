-- ===== src/Domain/Dimension.antt =====
-- internal/domain/cost/dimension.go and provider.go. The kinds, providers and bases are Go strings
-- with named constants, so any text may stand there.
use aws_cost_exporter.Base.{◌≡◌, refl, ◌⊎◌, Bool, ◌||◌, not, arith, if◌then◌else◌, ◌=?◌}
use aws_cost_exporter.Base.Text.{Text, text, text_same, is_empty, trim_space, trim_space_idem}
use aws_cost_exporter.Errors.{Result, ok, err, invalid_dimension}

abbrev pub DimensionKind : Type 0
DimensionKind = Text

abbrev pub dimension_total : DimensionKind
dimension_total = text "total"

abbrev pub dimension_service : DimensionKind
dimension_service = text "service"

abbrev pub dimension_region : DimensionKind
dimension_region = text "region"

abbrev pub dimension_account : DimensionKind
dimension_account = text "account"

pub record Dimension : Type 0 where
  pub kind : DimensionKind
  pub value : Text

abbrev global : Text
global = text "global"

unfoldable pub new_dimension : DimensionKind → Text → Result Dimension
new_dimension kind raw =
    let value = trim_space raw in
    if kind =? dimension_total
    then if not (is_empty value)
      then err invalid_dimension
      else ok (record { kind = kind; value = value })
    else if kind =? dimension_region
    then ok (record { kind = kind; value = if is_empty value then global else value })
    else if kind =? dimension_service || kind =? dimension_account
    then if is_empty value
      then err invalid_dimension
      else ok (record { kind = kind; value = value })
    else err invalid_dimension

-- A known kind with a trimmed value, which is empty for the total and for no other kind.
pub record IsDimension (d : Dimension) : Type 0 where
  pub known :
      (d.kind ≡ dimension_total)
      ⊎ ((d.kind ≡ dimension_region)
          ⊎ ((d.kind ≡ dimension_service) ⊎ (d.kind ≡ dimension_account)))
  pub trimmed : trim_space d.value ≡ d.value
  pub empty_of_total : is_empty d.value ≡ (d.kind =? dimension_total)

trim-global : trim_space global ≡ global
unfolding trim_space
trim-global = refl

-- Every dimension that new_dimension accepts has a known kind, keeps the kind that was asked for,
-- and has a trimmed value, empty exactly for the total.
pub new_dimension-IsDimension :
    (kind : DimensionKind) (raw : Text) (d : Dimension)
    → new_dimension kind raw ≡ ok d
    → IsDimension d × (d.kind ≡ kind)
unfolding new_dimension
new_dimension-IsDimension kind raw d h = ground (
  arith,
  trim_space_idem raw,
  trim-global,
  text_same.same_iff kind dimension_total,
  text_same.same_iff kind dimension_region,
  text_same.same_iff kind dimension_service,
  text_same.same_iff kind dimension_account,
)

abbrev pub Provider : Type 0
Provider = Text

abbrev pub provider_cost_explorer : Provider
provider_cost_explorer = text "cost_explorer"

abbrev pub provider_cur_athena : Provider
provider_cur_athena = text "cur_athena"

-- `Provider.Valid`
unfoldable pub valid_provider : Provider → Bool
valid_provider p = p =? provider_cost_explorer || p =? provider_cur_athena

abbrev pub Basis : Type 0
Basis = Text

abbrev pub unblended : Basis
unblended = text "unblended"

abbrev pub amortized : Basis
amortized = text "amortized"

abbrev pub net : Basis
net = text "net"

-- `Basis.Valid`
unfoldable pub valid_basis : Basis → Bool
valid_basis b = b =? unblended || b =? amortized || b =? net
