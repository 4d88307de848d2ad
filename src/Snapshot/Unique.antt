-- ===== src/Snapshot/Unique.antt =====
-- What ValidateUnique decides of the series of a snapshot.
use aws_cost_exporter.Base.{◌≡◌, ◌≢◌, true, List, [], ◌∷◌, All}
use aws_cost_exporter.Base.Text.{Text}
use aws_cost_exporter.Snapshot.{Snapshot}
use aws_cost_exporter.Snapshot.Validate.{known_source}
use aws_cost_exporter.Snapshot.Series.{Series}

-- No item comes twice.
abbrev pub Differ {ℓ} : {A : Type ℓ} → List A → Type ℓ
Differ [] = Unit
Differ (x ∷ xs) = All (λ y. x ≢ y) xs × Differ xs

-- A text without the bar that separates the fields
abbrev pub HasNoBar : Text → Type 0
HasNoBar = All (λ c. c ≢ b'|')

-- A series none of whose fields has a bar
abbrev pub IsPlain : Series → Type 0
IsPlain s = HasNoBar s.0 × All HasNoBar s.1

-- Costs, forecasts and tag costs have a known provider and basis.
abbrev pub HasKnownSources : Snapshot → Type 0
HasKnownSources s =
    All (λ c. known_source c.provider c.basis ≡ true) s.costs
    × All (λ f. known_source f.provider f.basis ≡ true) s.forecasts
    × All (λ t. known_source t.provider t.basis ≡ true) s.tag_costs
