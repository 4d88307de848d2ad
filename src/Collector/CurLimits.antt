-- ===== src/Collector/CurLimits.antt =====
-- The allowlist of keys and the count of currencies of the CUR collector, against what they stand for.
use aws_cost_exporter.Base.{
  ◌≡◌, ◌≤◌, refl, ◌∙◌, sym, subst, true, false, List, [], ◌∷◌, All, All-mono, Any, map, length,
  length-map, arith, inl, inr, ◌=?◌, same_refl, Bool-cases,
}
use aws_cost_exporter.Base.Int.{ℤ, pos, ◌<ℤ◌, pos_part}
use aws_cost_exporter.Base.Text.{Text, text_same}
use aws_cost_exporter.Base.Dict.{Dict, find, put, All-put}
use aws_cost_exporter.Domain.Cost.{Cost}
use aws_cost_exporter.Domain.Records.{TagCost}
use aws_cost_exporter.Config.Schema.{TagKeyConfig}
use aws_cost_exporter.Snapshot.Validate.{contains}
use aws_cost_exporter.Collector.Cur.{
  Currencies, cost_currencies, tag_currencies, currency_count, tag_limits, is_allowlisted,
}

-- One of the keys is this one, and admits a value.
abbrev pub Admits : List TagKeyConfig → Text → Type 0
Admits keys key = Any (λ k. (k.key ≡ key) × (pos 0 <ℤ k.max_values)) keys

module _ (P : Text × ℤ → Type 0) where
  tag_limits-All :
      (keys : List TagKeyConfig) (limits : Dict Text ℤ)
      → All (λ k. P (k.key, k.max_values)) keys
      → All P limits
      → All P (tag_limits keys limits)
  unfolding tag_limits
  tag_limits-All [] limits h l = l
  tag_limits-All (k ∷ keys) limits h l =
      tag_limits-All keys (put k.key k.max_values limits) h.1
        (All-put P k.key k.max_values limits h.0 l)

Any-mono :
    {A : Type 0} {P Q : A → Type 0} (f : (a : A) → P a → Q a) (xs : List A) → Any P xs → Any Q xs
Any-mono f [] h = absurd h
Any-mono f (x ∷ xs) (inl h) = inl (f x h)
Any-mono f (x ∷ xs) (inr h) = inr (Any-mono f xs h)

abbrev Stands : List TagKeyConfig → Text × ℤ → Type 0
Stands keys entry = Any (λ k. (k.key ≡ entry.0) × (k.max_values ≡ entry.1)) keys

all_stand : (keys : List TagKeyConfig) → All (λ k. Stands keys (k.key, k.max_values)) keys
all_stand [] = tt
all_stand (k ∷ keys) = (inl (refl, refl), All-mono (λ j h. inr h) keys (all_stand keys))

passed_over :
    (key j : Text) (limit : ℤ) (limits : Dict Text ℤ)
    → (j =? key) ≡ false
    → is_allowlisted ((j, limit) ∷ limits) key ≡ is_allowlisted limits key
unfolding is_allowlisted find
passed_over key j limit limits h = rw (h, is_allowlisted) refl

found_stands :
    (P : Text × ℤ → Type 0) (key : Text) (limits : Dict Text ℤ)
    → All P limits
    → is_allowlisted limits key ≡ true
    → (limit : ℤ) × (pos 0 <ℤ limit) × P (key, limit)
unfolding is_allowlisted find
found_stands P key [] h e = cc
found_stands P key ((j, limit) ∷ limits) h e = elim (Bool-cases (j =? key)) [
  | inl same ↦ (
    limit,
    ground (arith, e, same),
    subst (λ k. P (k, limit)) ((text_same.same_iff j key).0 same) h.0,
  )
  | inr other ↦ found_stands P key limits h.1 (sym (passed_over key j limit limits other) ∙ e)
]

-- A key that the limits let through is one of the keys, with a positive limit.
pub is_allowlisted-Admits :
    (keys : List TagKeyConfig) (key : Text)
    → is_allowlisted (tag_limits keys []) key ≡ true
    → Admits keys key
is_allowlisted-Admits keys key h =
    let stands = tag_limits-All (Stands keys) keys [] (all_stand keys) tt in
    let (limit, some_values, stand) =
      found_stands (Stands keys) key (tag_limits keys []) stands h in
    Any-mono (λ k e. (e.0, subst (λ n. pos 0 <ℤ n) (sym e.1) some_values)) keys stand

abbrev names : Currencies → List Text
names = map (λ entry. entry.0)

abbrev pub Counted : Currencies → Text → Type 0
Counted seen currency = contains (names seen) currency ≡ true

put-Counted : (currency : Text) (seen : Currencies) → Counted (put currency tt seen) currency
unfolding put contains
put-Counted currency [] = rw (same_refl currency) refl
put-Counted currency ((j, u) ∷ seen) = ground (arith, same_refl currency, put-Counted currency seen)

put-keeps :
    (currency other : Text) (seen : Currencies)
    → Counted seen other
    → Counted (put currency tt seen) other
unfolding put contains
put-keeps currency other [] h = cc
put-keeps currency other ((j, u) ∷ seen) h =
    ground (arith, text_same.same_iff j currency, put-keeps currency other seen)

cost_currencies-keeps :
    (items : List Cost) (seen : Currencies) (other : Text)
    → Counted seen other
    → Counted (cost_currencies items seen) other
unfolding cost_currencies
cost_currencies-keeps [] seen other h = h
cost_currencies-keeps (c ∷ items) seen other h =
    cost_currencies-keeps items _ other (put-keeps c.amount.currency other seen h)

tag_currencies-keeps :
    (items : List TagCost) (seen : Currencies) (other : Text)
    → Counted seen other
    → Counted (tag_currencies items seen) other
unfolding tag_currencies
tag_currencies-keeps [] seen other h = h
tag_currencies-keeps (c ∷ items) seen other h =
    tag_currencies-keeps items _ other (put-keeps c.amount.currency other seen h)

cost_currencies-All :
    (items : List Cost) (seen : Currencies)
    → All (λ c. Counted (cost_currencies items seen) c.amount.currency) items
unfolding cost_currencies
cost_currencies-All [] seen = tt
cost_currencies-All (c ∷ items) seen = (
  cost_currencies-keeps items _ _ (put-Counted c.amount.currency seen),
  cost_currencies-All items _,
)

tag_currencies-All :
    (items : List TagCost) (seen : Currencies)
    → All (λ c. Counted (tag_currencies items seen) c.amount.currency) items
unfolding tag_currencies
tag_currencies-All [] seen = tt
tag_currencies-All (c ∷ items) seen = (
  tag_currencies-keeps items _ _ (put-Counted c.amount.currency seen),
  tag_currencies-All items _,
)

-- The amounts of these costs and tag costs are in no more than this number of currencies.
abbrev pub WithinCurrencies : ℤ → List Cost → List TagCost → Type 0
WithinCurrencies limit costs tags =
    (currencies : List Text) × (length currencies ≤ pos_part limit)
    × All (λ c. contains currencies c.amount.currency ≡ true) costs
    × All (λ t. contains currencies t.amount.currency ≡ true) tags

pub currency_count-WithinCurrencies :
    (limit : ℤ) (costs : List Cost) (tags : List TagCost)
    → currency_count costs tags ≤ pos_part limit
    → WithinCurrencies limit costs tags
unfolding currency_count
currency_count-WithinCurrencies limit costs tags h =
    let of_costs = cost_currencies costs [] in
    (
      names (tag_currencies tags of_costs),
      subst (λ n. n ≤ pos_part limit) (sym (length-map _ (tag_currencies tags of_costs))) h,
      All-mono (λ c e. tag_currencies-keeps tags of_costs _ e) costs (cost_currencies-All costs []),
      tag_currencies-All tags of_costs,
    )
