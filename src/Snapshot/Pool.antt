-- ===== src/Snapshot/Pool.antt =====
-- The records of all parts in one list, as the loop of Merge gathers them.
use mathlib.Core.List.{Perm, Perm-prop, Permᴰ, append_assoc, append-nil, perm_append_comm}
use mathlib.Core.List.Perm
use mathlib.Core.Logic.{∥∥₁_elim}
use aws_cost_exporter.Base.{◌≡◌, sym, ap, ◌∙◌, List, [], ◌∷◌, ◌++◌, All, All-append}
use aws_cost_exporter.Snapshot.{Snapshot, append_part, append_parts, no_snapshot}

module _ {A : Type 0} (field : Snapshot → List A) where
  abbrev pub pooled : List Snapshot → List A
  pooled [] = []
  pooled (part ∷ parts) = field part ++ pooled parts

  pooled-permᴰ : {xs ys : List Snapshot} → Permᴰ xs ys → Perm (pooled xs) (pooled ys)
  pooled-permᴰ Permᴰ.nil = Perm.refl _
  pooled-permᴰ (Permᴰ.cons {b = b} e p) = rw e (Perm.append_left (field b) (pooled-permᴰ p))
  pooled-permᴰ (Permᴰ.swap {a = a} {b = b} {l = l} e h) =
      rw (← e, ← h, ← append_assoc (field a), ← append_assoc (field b))
        (Perm.append_right (pooled l) (perm_append_comm (field a) (field b)))
  pooled-permᴰ (Permᴰ.trans p q) = Perm.trans (pooled-permᴰ p) (pooled-permᴰ q)

  pub pooled-perm : {xs ys : List Snapshot} → Perm xs ys → Perm (pooled xs) (pooled ys)
  pooled-perm p = ∥∥₁_elim p Perm-prop pooled-permᴰ

  pub All-pooled {κ} :
      (P : A → Type κ) (parts : List Snapshot)
      → All (λ part. All P (field part)) parts
      → All P (pooled parts)
  All-pooled P [] h = tt
  All-pooled P (part ∷ parts) h = All-append P (field part) _ h.0 (All-pooled P parts h.1)

  module _ (appends : (a b : Snapshot) → field (append_part a b) ≡ field a ++ field b)
      (empty : field no_snapshot ≡ []) where
    append_parts-pooled :
        (all : Snapshot) (parts : List Snapshot)
        → field (append_parts all parts) ≡ field all ++ pooled parts
    unfolding append_parts
    append_parts-pooled all [] = sym (append-nil (field all))
    append_parts-pooled all (part ∷ parts) =
        append_parts-pooled (append_part all part) parts
        ∙ ap (λ l. l ++ pooled parts) (appends all part)
        ∙ append_assoc (field all) (field part) (pooled parts)

    pub gathered : (parts : List Snapshot) → field (append_parts no_snapshot parts) ≡ pooled parts
    gathered parts = append_parts-pooled no_snapshot parts ∙ ap (λ l. l ++ pooled parts) empty
