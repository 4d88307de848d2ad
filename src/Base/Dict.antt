-- ===== src/Base/Dict.antt =====
-- Go maps as association lists. A range loop over a map goes along the list: any order of the list
-- stands for a run.
use aws_cost_exporter.Base.Tests.{if◌then◌else◌, Eq, ◌=?◌, same_ne, Bool-cases}
use aws_cost_exporter.Base.Lists.{All}
use mathlib.Core.Path.{◌≡◌, refl, sym, subst}
use mathlib.Core.Logic.{inl, inr}
use mathlib.Core.Bool.{Bool, true, false}
use mathlib.Core.Option.{Option, none, some}
use mathlib.Core.Option
use mathlib.Core.List.{List, [], ◌∷◌}
use native.Mathlib.Omega.{arith}

abbrev pub Dict {ℓ κ} : Type ℓ → Type κ → Type (ℓ ⊔ κ)
Dict K V = List (K × V)

module _ {ℓ κ} {K : Type ℓ} {V : Type κ} ⦃e : Eq K⦄ where
  -- `v, ok := m[k]`
  unfoldable pub find : K → Dict K V → Option V
  find k [] = none
  find k ((j, v) ∷ m) = if j =? k then some v else find k m

  -- `m[k]`, with the zero value of a missing key
  unfoldable pub find_or : V → K → Dict K V → V
  unfolding find
  find_or d k m = Option.get_or (find k m) d

  -- `_, ok := m[k]`
  unfoldable pub has : K → Dict K V → Bool
  unfolding find
  has k m = elim (find k m) [ none ↦ false | some _ ↦ true ]

  -- `m[k] = v`
  unfoldable pub put : K → V → Dict K V → Dict K V
  put k v [] = (k, v) ∷ []
  put k v ((j, w) ∷ m) = if j =? k then (k, v) ∷ m else (j, w) ∷ put k v m

  -- `delete(m, k)`
  unfoldable pub remove : K → Dict K V → Dict K V
  remove k [] = []
  remove k ((j, w) ∷ m) = if j =? k then remove k m else (j, w) ∷ remove k m

  pub find-put :
      (k j : K) (v : V) (m : Dict K V) → find j (put k v m) ≡ (if k =? j then some v else find j m)
  unfolding find put
  find-put k j v [] = refl
  find-put k j v ((i, w) ∷ m) =
      ground (arith, e.same_iff k j, e.same_iff i k, e.same_iff i j, find-put k j v m)

  pub find-remove :
      (k j : K) (m : Dict K V) → find j (remove k m) ≡ (if k =? j then none else find j m)
  unfolding find remove
  find-remove k j [] = ground arith
  find-remove k j ((i, w) ∷ m) =
      ground (arith, e.same_iff k j, e.same_iff i k, e.same_iff i j, find-remove k j m)

  -- What holds of each entry holds after a write of an entry for which it holds.
  pub All-put {μ} :
      (P : K × V → Type μ) (k : K) (v : V) (m : Dict K V) → P (k, v) → All P m → All P (put k v m)
  unfolding put
  All-put P k v [] h t = (h, tt)
  All-put P k v ((j, w) ∷ m) h t = elim (Bool-cases (j =? k)) [
    | inl e ↦ rw e (h, t.1)
    | inr e ↦ rw e (t.0, All-put P k v m h t.1)
  ]

  -- No key comes twice.
  abbrev pub UniqueKeys : Dict K V → Type κ
  UniqueKeys [] = Unit
  UniqueKeys ((k, v) ∷ m) = (find k m ≡ none) × UniqueKeys m

  pub put-UniqueKeys : (k : K) (v : V) (m : Dict K V) → UniqueKeys m → UniqueKeys (put k v m)
  unfolding put find
  put-UniqueKeys k v [] u = (refl, tt)
  put-UniqueKeys k v ((j, w) ∷ m) u = elim (Bool-cases (j =? k)) [
    | inl h ↦ rw h (subst (λ i. find i m ≡ none) ((e.same_iff j k).0 h) u.0, u.1)
    | inr h ↦ rw h (
      rw (find-put k j v m) (rw (same_ne k j (λ p. ground (arith, e.same_iff j k, sym p))) u.0),
      put-UniqueKeys k v m u.1,
    )
  ]

module _ {K V : Type 0} ⦃e : Eq K⦄ (P : V → Type 0) where
  -- A lookup in lists of such items gives a list of them.
  pub find_or-All :
      (key : K) (groups : Dict K (List V))
      → All (λ entry. All P entry.1) groups
      → All P (find_or [] key groups)
  unfolding find_or find
  find_or-All key [] h = tt
  find_or-All key ((j, vs) ∷ groups) h = elim (Bool-cases (j =? key)) [
    | inl same ↦ rw same h.0
    | inr other ↦ rw other (find_or-All key groups h.1)
  ]
