-- ===== src/Domain/Records.antt =====
-- The other published records: internal/domain/organization, budget, commitment, anomaly and
-- tagcost, with the comparisons that their `Sort` functions pass to sort.SliceStable.
use aws_cost_exporter.Base.{ℕ, ◌≡◌, Bool, List, [], ◌∷◌, if◌then◌else◌, not, ◌=?◌, ◌||◌}
use aws_cost_exporter.Base.Text.{Text, text, text_same, text_lt, key_lt, key_lt-text, key_lt_last}
use aws_cost_exporter.Base.Float.{Float64}
use aws_cost_exporter.Base.Sort.{sort_by}
use aws_cost_exporter.Domain.Identity.{TargetId}
use aws_cost_exporter.Domain.Money.{Money}
use aws_cost_exporter.Domain.Period.{Time}
use aws_cost_exporter.Domain.Dimension.{Provider, Basis}
use aws_cost_exporter.Domain.Cost.{Window}

pub record Account : Type 0 where
  pub target : TargetId
  pub account_id : Text
  pub name : Text
  pub status : Text

unfoldable pub account_before : Account → Account → Bool
account_before l r =
    if not (l.target =? r.target)
    then text_lt l.target r.target
    else text_lt l.account_id r.account_id

abbrev pub account_key : Account → List Text
account_key a = a.target ∷ a.account_id ∷ []

-- organization.Sort
unfoldable pub sort_accounts : List Account → List Account
sort_accounts = sort_by account_before

pub record Budget : Type 0 where
  pub target : TargetId
  pub name : Text
  pub kind : Text
  pub time_unit : Text
  pub limit : Money
  pub actual : Money
  pub forecasted : Money
  pub has_actual : Bool
  pub has_forecasted : Bool

unfoldable pub budget_before : Budget → Budget → Bool
budget_before l r =
    if not (l.target =? r.target) then text_lt l.target r.target else text_lt l.name r.name

abbrev pub budget_key : Budget → List Text
budget_key b = b.target ∷ b.name ∷ []

-- budget.Sort
unfoldable pub sort_budgets : List Budget → List Budget
sort_budgets = sort_by budget_before

abbrev pub savings_plan : Text
savings_plan = text "savings_plan"

abbrev pub reservation : Text
reservation = text "reservation"

-- commitment.Summary
pub record Commitment : Type 0 where
  pub target : TargetId
  pub kind : Text
  pub time_unit : Text
  pub utilization_ratio : Float64
  pub coverage_ratio : Float64
  pub unused_hours : Float64
  pub covered_spend : Money
  pub on_demand_cost : Money
  pub net_savings : Money
  pub has_utilization : Bool
  pub has_coverage : Bool
  pub has_unused_hours : Bool
  pub has_covered_spend : Bool
  pub has_on_demand_cost : Bool
  pub has_net_savings : Bool

-- `Type.Valid`
unfoldable pub valid_commitment_kind : Text → Bool
valid_commitment_kind k = k =? savings_plan || k =? reservation

unfoldable pub commitment_before : Commitment → Commitment → Bool
commitment_before l r =
    if not (l.target =? r.target)
    then text_lt l.target r.target
    else if not (l.kind =? r.kind)
    then text_lt l.kind r.kind
    else text_lt l.time_unit r.time_unit

abbrev pub commitment_key : Commitment → List Text
commitment_key c = c.target ∷ c.kind ∷ c.time_unit ∷ []

-- commitment.Sort
unfoldable pub sort_commitments : List Commitment → List Commitment
sort_commitments = sort_by commitment_before

-- anomaly.Summary
pub record Anomaly : Type 0 where
  pub target : TargetId
  pub active : Bool
  pub count : ℕ
  pub impact : Money
  pub max_impact : Money
  pub last_detected : Time
  pub has_impact : Bool
  pub has_max_impact : Bool

unfoldable pub anomaly_before : Anomaly → Anomaly → Bool
anomaly_before l r = text_lt l.target r.target

abbrev pub anomaly_key : Anomaly → List Text
anomaly_key a = a.target ∷ []

-- anomaly.Sort
unfoldable pub sort_anomalies : List Anomaly → List Anomaly
sort_anomalies = sort_by anomaly_before

pub record TagCost : Type 0 where
  pub target : TargetId
  pub provider : Provider
  pub basis : Basis
  pub window : Window
  pub tag_key : Text
  pub tag_value : Text
  pub amount : Money

unfoldable pub tag_before : TagCost → TagCost → Bool
tag_before l r =
    if not (l.target =? r.target)
    then text_lt l.target r.target
    else if not (l.provider =? r.provider)
    then text_lt l.provider r.provider
    else if not (l.basis =? r.basis)
    then text_lt l.basis r.basis
    else if not (l.window =? r.window)
    then text_lt l.window r.window
    else if not (l.tag_key =? r.tag_key)
    then text_lt l.tag_key r.tag_key
    else if not (l.tag_value =? r.tag_value)
    then text_lt l.tag_value r.tag_value
    else text_lt l.amount.currency r.amount.currency

abbrev pub tag_sort_key : TagCost → List Text
tag_sort_key t =
    t.target ∷ t.provider ∷ t.basis ∷ t.window ∷ t.tag_key ∷ t.tag_value ∷ t.amount.currency ∷ []

-- tagcost.Sort
unfoldable pub sort_tags : List TagCost → List TagCost
sort_tags = sort_by tag_before

ruleset by_fields = (key_lt_last, key_lt-text)

pub account_before-key_lt :
    (l r : Account) → account_before l r ≡ key_lt (account_key l) (account_key r)
unfolding account_before
account_before-key_lt l r = simp by_fields

pub commitment_before-key_lt :
    (l r : Commitment) → commitment_before l r ≡ key_lt (commitment_key l) (commitment_key r)
unfolding commitment_before
commitment_before-key_lt l r = simp by_fields

pub budget_before-key_lt : (l r : Budget) → budget_before l r ≡ key_lt (budget_key l) (budget_key r)
unfolding budget_before
budget_before-key_lt l r = simp by_fields

pub anomaly_before-key_lt :
    (l r : Anomaly) → anomaly_before l r ≡ key_lt (anomaly_key l) (anomaly_key r)
unfolding anomaly_before
anomaly_before-key_lt l r = simp by_fields

pub tag_before-key_lt : (l r : TagCost) → tag_before l r ≡ key_lt (tag_sort_key l) (tag_sort_key r)
unfolding tag_before
tag_before-key_lt l r = simp by_fields
