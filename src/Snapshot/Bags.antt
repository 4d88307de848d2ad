-- ===== src/Snapshot/Bags.antt =====
-- The records of a kind in merges that go over the same parts in different orders. Budgets and
-- commitments are sorted by fewer fields than they have, so that their order may differ.
use mathlib.Core.List.{Perm, Perm-prop, Permᴰ}
use mathlib.Core.List.Perm
use mathlib.Core.Logic.{∥∥₁_elim}
use aws_cost_exporter.Base.{◌≡◌, refl, Bool, List, [], ◌++◌, select, Bool-cases, inl, inr}
use aws_cost_exporter.Base.Sort.{sort_by, sort_by-perm}
use aws_cost_exporter.Domain.Records.{
  budget_before, commitment_before, sort_budgets, sort_commitments,
}
use aws_cost_exporter.Snapshot.{
  Snapshot, no_snapshot, append_part, append_parts, merge, new_with_data,
}
use aws_cost_exporter.Snapshot.Pool.{pooled-perm, gathered}

module _ {A : Type 0} (p : A → Bool) where
  select-permᴰ : {xs ys : List A} → Permᴰ xs ys → Perm (select p xs) (select p ys)
  select-permᴰ Permᴰ.nil = Perm.refl _
  select-permᴰ (Permᴰ.cons {b = b} e q) = rw e (elim (Bool-cases (p b)) [
    | inl h ↦ rw h (Perm.cons b (select-permᴰ q))
    | inr h ↦ rw h (select-permᴰ q)
  ])
  select-permᴰ (Permᴰ.swap {a = a} {b = b} {l = l} e h) =
      rw (← e, ← h)
        (elim (Bool-cases (p a)) [
          | inl f ↦ elim (Bool-cases (p b)) [
            | inl g ↦ rw (f, g) (Perm.swap b a (select p l))
            | inr g ↦ rw (f, g) (Perm.refl _)
          ]
          | inr f ↦ elim (Bool-cases (p b)) [
            | inl g ↦ rw (f, g) (Perm.refl _)
            | inr g ↦ rw (f, g) (Perm.refl _)
          ]
        ])
  select-permᴰ (Permᴰ.trans q r) = Perm.trans (select-permᴰ q) (select-permᴰ r)

  -- Lists with the same items, each as often, have the same items that pass a test.
  pub select-perm : {xs ys : List A} → Perm xs ys → Perm (select p xs) (select p ys)
  select-perm q = ∥∥₁_elim q Perm-prop select-permᴰ

module _ {A : Type 0} (field : Snapshot → List A) (before : A → A → Bool)
    (appends : (a b : Snapshot) → field (append_part a b) ≡ field a ++ field b)
    (empty : field no_snapshot ≡ []) where
  sorted-perm :
      (xs ys : List Snapshot)
      → Perm xs ys
      → Perm
          (sort_by before (field (append_parts no_snapshot xs)))
          (sort_by before (field (append_parts no_snapshot ys)))
  sorted-perm xs ys p = rw (gathered field appends empty xs) (
      rw (gathered field appends empty ys) (
        Perm.trans (sort_by-perm before _)
          (Perm.trans (pooled-perm field p) (Perm.symm (sort_by-perm before _)))))

-- The budgets and commitments of a merge are the same, each as often, whatever the order of the parts.
pub merge-bags :
    (xs ys : List Snapshot)
    → Perm xs ys
    → Perm (merge xs).budgets (merge ys).budgets
      × Perm (merge xs).commitments (merge ys).commitments
unfolding merge new_with_data append_part sort_budgets sort_commitments
merge-bags xs ys p = (
  sorted-perm (λ s. s.budgets) budget_before (λ a b. refl) refl xs ys p,
  sorted-perm (λ s. s.commitments) commitment_before (λ a b. refl) refl xs ys p,
)
