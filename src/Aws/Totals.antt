-- ===== src/Aws/Totals.antt =====
-- What aggregateMonthToDate makes of the rows of a month: one cost for each key, with the sum of the
-- amounts of its rows.
use mathlib.Core.List.{
  Mem, Nodup, Nodup-nil, Nodup-cons, mem-cons, mem-cons_self, not-mem-nil, Perm, append-nil,
  append_assoc,
}
use mathlib.Core.List.Perm
use mathlib.Core.Logic.Or
use mathlib.Core.HLevel.{⊥_prop}
use aws_cost_exporter.Base.{
  ◌≡◌, refl, sym, subst, ap, ◌∙◌, Bool, true, false, List, [], ◌∷◌, ◌++◌, map, All, All-append,
  All-mono, none, some, arith, Eq, ◌=?◌, same_refl, same_ne, Bool-cases, Option-cases, inl, inr,
  select, select-append, select_none, if◌then◌else◌,
}
use aws_cost_exporter.Base.Float.{Float64}
use aws_cost_exporter.Base.Text.{Text, text_same, key_same}
use aws_cost_exporter.Base.Dict.{Dict, find, put, find-put, UniqueKeys, put-UniqueKeys}
use aws_cost_exporter.Base.Sort.{sort_by, sort_by-perm, All-sort_by}
use aws_cost_exporter.Domain.Money.{Money, add}
use aws_cost_exporter.Domain.Period.{Period}
use aws_cost_exporter.Domain.Cost.{month_to_date, Cost}
use aws_cost_exporter.Errors.{Result, ok, ◌>>=◌, bind_ok, ok_injective}
use aws_cost_exporter.Aws.Mapping.{
  aggregate_key, Totals, first_total, add_row, add_rows, key_before, aggregate_month_to_date,
}

module _ {K V : Type 0} ⦃e : Eq K⦄ where
  -- With unique keys, what holds of each lookup holds of each entry.
  pub All-find :
      (P : K × V → Type 0) (m : Dict K V)
      → UniqueKeys m
      → ((k : K) (v : V) → find k m ≡ some v → P (k, v))
      → All P m
  unfolding find
  All-find P [] u h = tt
  All-find P ((k, v) ∷ m) u h =
      (h k v (rw (same_refl k) refl), All-find P m u.1 (λ j w f. h j w (later j w f)))
    where
      later : (j : K) (w : V) → find j m ≡ some w → find j ((k, v) ∷ m) ≡ some w
      later j w f = elim (Bool-cases (k =? j)) [
        | inl same ↦
            let none_here = subst (λ i. find i m ≡ none) ((e.same_iff k j).0 same) u.0 in cc
        | inr other ↦ rw other f
      ]

  mem-keys : (m : Dict K V) (k : K) (v : V) → find k m ≡ some v → Mem k (map (λ i. i.0) m)
  unfolding find
  mem-keys [] k v h = cc
  mem-keys ((j, w) ∷ m) k v h = elim (Bool-cases (j =? k)) [
    | inl same ↦ subst (λ i. Mem i (j ∷ map (λ i. i.0) m)) ((e.same_iff j k).0 same) mem-cons_self
    | inr other ↦ mem-cons.1 (Or.inr (mem-keys m k v (rw other at h)))
  ]

  not-mem-find : (m : Dict K V) (k : K) → find k m ≡ none → ¬ Mem k (map (λ i. i.0) m)
  unfolding find
  not-mem-find [] k h mem = not-mem-nil mem
  not-mem-find ((j, w) ∷ m) k h mem = elim (Bool-cases (j =? k)) [
    | inl same ↦ cc (rw same at h)
    | inr other ↦
        Or.elim ⊥_prop (mem-cons.0 mem) (λ p. cc (other, (e.same_iff j k).1 (sym p)))
          (not-mem-find m k (rw other at h))
  ]

  UniqueKeys-Nodup : (m : Dict K V) → UniqueKeys m → Nodup (map (λ i. i.0) m)
  UniqueKeys-Nodup [] u = Nodup-nil
  UniqueKeys-Nodup ((k, v) ∷ m) u = Nodup-cons.1 (not-mem-find m k u.0, UniqueKeys-Nodup m u.1)

-- The rows under a key, in order
abbrev pub rows_of : List Text → List Cost → List Cost
rows_of k = select (λ r. aggregate_key r =? k)

-- An amount and those of the rows, added from the left
abbrev pub sum_from : (Float64 → Float64 → Float64) → Money → List Cost → Result Money
sum_from plus m [] = ok m
sum_from plus m (r ∷ rs) = add plus m r.amount >>= λ s. sum_from plus s rs

sum_from-append :
    (plus : Float64 → Float64 → Float64) (m n : Money) (rs : List Cost) (r : Cost)
    → sum_from plus m rs ≡ ok n
    → sum_from plus m (rs ++ r ∷ []) ≡ (add plus n r.amount >>= λ s. ok s)
sum_from-append plus m n [] r h = ap (λ k. add plus k r.amount >>= λ s. ok s) (ok_injective h)
sum_from-append plus m n (x ∷ rs) r h =
    let (s, one, h1) = bind_ok (add plus m x.amount) _ h in
    rw one (sum_from-append plus s n rs r h1)

add-currency :
    (plus : Float64 → Float64 → Float64) (a b m : Money)
    → add plus a b ≡ ok m
    → m.currency ≡ a.currency
unfolding add
add-currency plus a b m h = ground arith

module _ (plus : Float64 → Float64 → Float64) (period : Period) where
  -- The total of the rows under a key
  pub record IsTotal (rows : List Cost) (k : List Text) (c : Cost) : Type 0 where
    pub key : aggregate_key c ≡ k
    pub window : c.window ≡ month_to_date
    pub span : c.period ≡ period
    pub summed :
        (first : Cost) × (rest : List Cost) × (rows_of k rows ≡ first ∷ rest)
        × (sum_from plus first.amount rest ≡ ok c.amount)

  record Inv (rows : List Cost) (totals : Totals) : Type 0 where
    unique : UniqueKeys totals
    each : (k : List Text) (c : Cost) → find k totals ≡ some c → IsTotal rows k c
    covered : All (λ r. (c : Cost) × (find (aggregate_key r) totals ≡ some c)) rows

  -- A row under another key changes no total.
  IsTotal-other :
      (rows : List Cost) (e : Cost) (k : List Text) (c : Cost)
      → (aggregate_key e =? k) ≡ false
      → IsTotal rows k c
      → IsTotal (rows ++ e ∷ []) k c
  IsTotal-other rows e k c other t =
      let (first, rest, split, summed) = t.summed in
      record {
        key = t.key;
        window = t.window;
        span = t.span;
        summed = (
          first,
          rest,
          select-append (λ r. aggregate_key r =? k) rows (e ∷ [])
              ∙ rw (split, other) (ap (◌∷◌ first) (append-nil rest)),
          summed,
        );
      }

  no_rows :
      (rows : List Cost) (totals : Totals) (k : List Text)
      → find k totals ≡ none
      → All (λ r. (c : Cost) × (find (aggregate_key r) totals ≡ some c)) rows
      → rows_of k rows ≡ []
  no_rows rows totals k absent covered =
      select_none (λ r. aggregate_key r =? k) rows (All-mono fresh rows covered)
    where
      fresh :
          (r : Cost)
          → (c : Cost) × (find (aggregate_key r) totals ≡ some c)
          → (aggregate_key r =? k) ≡ false
      fresh r (c, found) =
          same_ne (aggregate_key r) k
            (λ p. cc (absent, subst (λ i. find i totals ≡ some c) p found))

  IsTotal-first :
      (rows : List Cost) (totals : Totals) (e : Cost)
      → Inv rows totals
      → find (aggregate_key e) totals ≡ none
      → IsTotal (rows ++ e ∷ []) (aggregate_key e) (first_total period e)
  IsTotal-first rows totals e inv absent =
      let k = aggregate_key e in
      record {
        key = refl;
        window = refl;
        span = refl;
        summed = (
          e,
          [],
          select-append (λ r. aggregate_key r =? k) rows (e ∷ [])
              ∙ rw (no_rows rows totals k absent inv.covered, same_refl k) refl,
          refl,
        );
      }

  IsTotal-more :
      (rows : List Cost) (e existing stored : Cost)
      → IsTotal rows (aggregate_key e) existing
      → add_row plus period (some existing) e ≡ ok stored
      → IsTotal (rows ++ e ∷ []) (aggregate_key e) stored
  unfolding add_row
  IsTotal-more rows e existing stored t h =
      let k = aggregate_key e in
      let (first, rest, split, summed) = t.summed in
      let (sum, one, h1) = bind_ok (add plus existing.amount e.amount) _ h in
      let currency = add-currency plus existing.amount e.amount sum one in
      let more : Cost = record existing { amount = sum } in
      subst (IsTotal (rows ++ e ∷ []) k) (ok_injective h1) (record {
        key = more_key existing sum k currency t.key;
        window = t.window;
        span = t.span;
        summed = (
          first,
          rest ++ e ∷ [],
          select-append (λ r. aggregate_key r =? k) rows (e ∷ []) ∙ rw (split, same_refl k) refl,
          sum_from-append plus first.amount existing.amount rest e summed ∙ rw one refl,
        );
      })
    where
      more_key :
          (c : Cost) (m : Money) (k : List Text)
          → m.currency ≡ c.amount.currency
          → aggregate_key c ≡ k
          → aggregate_key (record c { amount = m }) ≡ k
      more_key c m k p q = rw p q

  IsTotal-row :
      (rows : List Cost) (totals : Totals) (e stored : Cost)
      → Inv rows totals
      → add_row plus period (find (aggregate_key e) totals) e ≡ ok stored
      → IsTotal (rows ++ e ∷ []) (aggregate_key e) stored
  unfolding add_row
  IsTotal-row rows totals e stored inv h = elim (Option-cases (find (aggregate_key e) totals)) [
    | inl absent ↦
        subst (IsTotal (rows ++ e ∷ []) (aggregate_key e))
          (ok_injective (subst (λ o. add_row plus period o e ≡ ok stored) absent h))
          (IsTotal-first rows totals e inv absent)
    | inr (existing, found) ↦
        IsTotal-more rows e existing stored (inv.each (aggregate_key e) existing found)
          (subst (λ o. add_row plus period o e ≡ ok stored) found h)
  ]

  some_eq : (a b : Cost) → some a ≡ some b → a ≡ b
  some_eq a b h = cc

  each_row :
      (rows : List Cost) (totals : Totals) (e stored : Cost)
      → Inv rows totals
      → add_row plus period (find (aggregate_key e) totals) e ≡ ok stored
      → (k : List Text) (c : Cost) → find k (put (aggregate_key e) stored totals) ≡ some c
      → IsTotal (rows ++ e ∷ []) k c
  each_row rows totals e stored inv h k c found =
      let key = aggregate_key e in
      let seen = sym (find-put key k stored totals) ∙ found in
      let at : (b : Bool) → (key =? k) ≡ b → (if b then some stored else find k totals) ≡ some c =
        λ b p. subst (λ b. (if b then some stored else find k totals) ≡ some c) p seen in
      elim (Bool-cases (key =? k)) [
        | inl same ↦
            subst (λ i. IsTotal (rows ++ e ∷ []) i c) ((key_same.same_iff key k).0 same)
              (subst (IsTotal (rows ++ e ∷ []) key) (some_eq stored c (at true same))
                (IsTotal-row rows totals e stored inv h))
        | inr other ↦ IsTotal-other rows e k c other (inv.each k c (at false other))
      ]

  Inv-row :
      (rows : List Cost) (totals : Totals) (e stored : Cost)
      → Inv rows totals
      → add_row plus period (find (aggregate_key e) totals) e ≡ ok stored
      → Inv (rows ++ e ∷ []) (put (aggregate_key e) stored totals)
  Inv-row rows totals e stored inv h =
      let key = aggregate_key e in
      record {
        unique = put-UniqueKeys key stored totals inv.unique;
        each = each_row rows totals e stored inv h;
        covered =
            All-append _ rows (e ∷ []) (All-mono still rows inv.covered)
              ((stored, find-put key key stored totals ∙ rw (same_refl key) refl), tt);
      }
    where
      still :
          (r : Cost)
          → (c : Cost) × (find (aggregate_key r) totals ≡ some c)
          → (c : Cost) × (find (aggregate_key r) (put (aggregate_key e) stored totals) ≡ some c)
      still r (c, found) = elim (Bool-cases (aggregate_key e =? aggregate_key r)) [
        | inl same ↦
            (stored, find-put (aggregate_key e) (aggregate_key r) stored totals ∙ rw same refl)
        | inr other ↦
            (c, find-put (aggregate_key e) (aggregate_key r) stored totals ∙ rw other found)
      ]

  Inv-rows :
      (rows entries : List Cost) (totals after : Totals)
      → Inv rows totals
      → add_rows plus period entries totals ≡ ok after
      → Inv (rows ++ entries) after
  unfolding add_rows
  Inv-rows rows [] totals after inv h =
      subst (λ l. Inv l after) (sym (append-nil rows)) (subst (Inv rows) (ok_injective h) inv)
  Inv-rows rows (e ∷ entries) totals after inv h =
      let (stored, one, h1) = bind_ok (add_row plus period (find (aggregate_key e) totals) e) _ h in
      subst (λ l. Inv l after) (append_assoc rows (e ∷ []) entries)
        (Inv-rows (rows ++ e ∷ []) entries (put (aggregate_key e) stored totals) after
          (Inv-row rows totals e stored inv one) h1)

  no_row : Inv [] []
  unfolding find
  no_row = record { unique = tt; each = λ k c h. cc; covered = tt }

  values_keyed :
      (rows : List Cost) (entries : List (List Text × Cost))
      → All (λ i. IsTotal rows i.0 i.1) entries
      → (map aggregate_key (map (λ i. i.1) entries) ≡ map (λ i. i.0) entries)
        × All (λ c. IsTotal rows (aggregate_key c) c) (map (λ i. i.1) entries)
  values_keyed rows [] h = (refl, tt)
  values_keyed rows ((k, c) ∷ entries) h =
      let (keys, totals) = values_keyed rows entries h.1 in
      (
        ap (λ i. i ∷ map aggregate_key (map (λ i. i.1) entries)) h.0.key ∙ ap (◌∷◌ k) keys,
        (subst (λ i. IsTotal rows i c) (sym h.0.key) h.0, totals),
      )

  covered_keys :
      (totals : Totals) (keys : List (List Text)) (rows : List Cost)
      → Perm keys (map (λ i. i.0) totals)
      → All (λ r. (c : Cost) × (find (aggregate_key r) totals ≡ some c)) rows
      → All (λ r. Mem (aggregate_key r) keys) rows
  covered_keys totals keys rows p covered =
      All-mono (λ r (c, found). (Perm.mem_iff p).1 (mem-keys totals (aggregate_key r) c found)) rows
        covered

-- What aggregateMonthToDate returns has no two costs with the same dimension, currency, provider and
-- basis. Each cost stands for the month to date and the given period, and its amount is that of the
-- first row under its key with those of the other rows under the key added in their order; and each
-- row has its key there.
pub aggregate_month_to_date-totals :
    (plus : Float64 → Float64 → Float64) (rows : List Cost) (period : Period) (made : List Cost)
    → aggregate_month_to_date plus rows period ≡ ok made
    → Nodup (map aggregate_key made)
      × All (λ c. IsTotal plus period rows (aggregate_key c) c) made
      × All (λ r. Mem (aggregate_key r) (map aggregate_key made)) rows
unfolding aggregate_month_to_date
aggregate_month_to_date-totals plus rows period made h =
    let (totals, added, h1) = bind_ok (add_rows plus period rows []) _ h in
    let inv = Inv-rows plus period [] rows [] totals (no_row plus period) added in
    let sorted = sort_by key_before totals in
    let p = sort_by-perm key_before totals in
    let each =
      All-sort_by key_before (λ i. IsTotal plus period rows i.0 i.1) totals
        (All-find (λ i. IsTotal plus period rows i.0 i.1) totals inv.unique inv.each) in
    let (keys, values) = values_keyed plus period rows sorted each in
    let by_key = Perm.map (λ i. i.0) p in
    subst
      (λ l.
        Nodup (map aggregate_key l)
        × All (λ c. IsTotal plus period rows (aggregate_key c) c) l
        × All (λ r. Mem (aggregate_key r) (map aggregate_key l)) rows)
      (ok_injective h1)
      (
        subst Nodup (sym keys) (Perm.nodup (Perm.symm by_key) (UniqueKeys-Nodup totals inv.unique)),
        values,
        subst (λ l. All (λ r. Mem (aggregate_key r) l) rows) (sym keys)
            (covered_keys plus period totals (map (λ i. i.0) sorted) rows by_key inv.covered),
      )
