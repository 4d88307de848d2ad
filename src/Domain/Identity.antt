-- ===== src/Domain/Identity.antt =====
-- internal/domain/identity/identity.go
use aws_cost_exporter.Base.{◌≡◌, ◌↔◌, Bool, true, ◌&&◌, ◌++◌, not, arith, Eq, ◌=?◌}
use aws_cost_exporter.Base.Text.{Text, text, text_same, is_empty, trim_space}

abbrev pub TargetId : Type 0
TargetId = Text

pub record CollectorId : Type 0 where
  pub target : TargetId
  pub name : Text

-- `==` on the struct.
unfoldable pub collector_same : CollectorId → CollectorId → Bool
collector_same a b = a.target =? b.target && a.name =? b.name

pub collector_same_iff : (a b : CollectorId) → (collector_same a b ≡ true) ↔ (a ≡ b)
unfolding collector_same
collector_same_iff a b = (
  λ h. ground (arith, text_same.same_iff a.target b.target, text_same.same_iff a.name b.name),
  λ p. ground (arith, text_same.same_iff a.target b.target, text_same.same_iff a.name b.name),
)

instance abbrev pub collector_id_same : Eq CollectorId
collector_id_same = record { same = collector_same; same_iff = collector_same_iff }

-- `CollectorID.Valid`
unfoldable pub is_valid : CollectorId → Bool
is_valid id =
    trim_space id.target =? id.target
    && not (is_empty id.target)
    && trim_space id.name =? id.name
    && not (is_empty id.name)

-- `CollectorID.String`
unfoldable pub to_string : CollectorId → Text
to_string id = id.target ++ text "/" ++ id.name
