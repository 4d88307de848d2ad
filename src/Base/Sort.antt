-- ===== src/Base/Sort.antt =====
-- `sort.SliceStable` as insertion sort: an item goes behind the items that are less than it, and
-- before its equals that follow it.
use mathlib.Core.List.{
  Mem, Nodup, Nodup-cons, mem-cons_self, is_set, Perm, Permᴰ, List, [], ◌∷◌, map,
}
use mathlib.Core.List.Perm
use mathlib.Core.Logic.{∥∥₁_elim, ◌≢◌, inl, inr}
use mathlib.Core.Path.{◌≡◌, refl, sym, ap, ◌∙◌, subst}
use mathlib.Core.Bool.{Bool, true, false}
use Prim.Native.Nat.{suc}
use native.Mathlib.Omega.{arith}
use aws_cost_exporter.Base.Tests.{if◌then◌else◌, Bool-cases}
use aws_cost_exporter.Base.Lists.{length, select, All, All-mono, All-select}
use aws_cost_exporter.Base.Keys.{IsStrictOrder}

module _ {ℓ} {A : Type ℓ} (less : A → A → Bool) where
  insert_by : A → List A → List A
  insert_by x [] = x ∷ []
  insert_by x (y ∷ ys) = if less y x then y ∷ insert_by x ys else x ∷ y ∷ ys

  unfoldable pub sort_by : List A → List A
  unfolding insert_by
  sort_by [] = []
  sort_by (x ∷ xs) = insert_by x (sort_by xs)

  pub sort_by_two : (x y : A) → less y x ≡ true → sort_by (x ∷ y ∷ []) ≡ y ∷ x ∷ []
  unfolding sort_by
  sort_by_two x y h = rw h refl

  insert_by-perm : (x : A) (ys : List A) → Perm (insert_by x ys) (x ∷ ys)
  unfolding insert_by
  insert_by-perm x [] = Perm.refl _
  insert_by-perm x (y ∷ ys) = ground (
    arith,
    Perm.refl (x ∷ y ∷ ys),
    Perm.trans (Perm.cons y (insert_by-perm x ys)) (Perm.swap x y ys),
  )

  pub sort_by-perm : (xs : List A) → Perm (sort_by xs) xs
  unfolding sort_by
  sort_by-perm [] = Perm.refl _
  sort_by-perm (x ∷ xs) = Perm.trans (insert_by-perm x (sort_by xs)) (Perm.cons x (sort_by-perm xs))

  length-insert_by : (x : A) (ys : List A) → length (insert_by x ys) ≡ suc (length ys)
  unfolding insert_by
  length-insert_by x [] = refl
  length-insert_by x (y ∷ ys) = ground (arith, length-insert_by x ys)

  pub length-sort_by : (xs : List A) → length (sort_by xs) ≡ length xs
  unfolding sort_by
  length-sort_by [] = refl
  length-sort_by (x ∷ xs) = length-insert_by x (sort_by xs) ∙ ap suc (length-sort_by xs)

  module _ {κ} (P : A → Type κ) where
    All-insert_by : (x : A) (ys : List A) → P x → All P ys → All P (insert_by x ys)
    unfolding insert_by
    All-insert_by x [] h k = (h, tt)
    All-insert_by x (y ∷ ys) h k = elim (Bool-cases (less y x)) [
      | inl e ↦ rw e (k.0, All-insert_by x ys h k.1)
      | inr e ↦ rw e (h, k)
    ]

    pub All-sort_by : (xs : List A) → All P xs → All P (sort_by xs)
    unfolding sort_by
    All-sort_by [] h = tt
    All-sort_by (x ∷ xs) h = All-insert_by x (sort_by xs) h.0 (All-sort_by xs h.1)

-- Where the comparison is that of a key under a strict order.
module _ {ℓ κ} {A : Type ℓ} {K : Type κ} (less : A → A → Bool) (key : A → K) {lt : K → K → Bool}
    (o : IsStrictOrder lt) (by_key : (x y : A) → less x y ≡ lt (key x) (key y)) where
  -- Items with different keys may be inserted in either order.
  insert_by_comm :
      (x y : A) (zs : List A)
      → key x ≢ key y
      → insert_by less x (insert_by less y zs) ≡ insert_by less y (insert_by less x zs)
  unfolding insert_by
  insert_by_comm x y [] ne = ground (
    arith,
    by_key x y,
    by_key y x,
    o.connected (key x) (key y),
    o.trans (key x) (key y) (key x),
    o.irrefl (key x),
  )
  insert_by_comm x y (z ∷ zs) ne = ground (
    arith,
    by_key x y,
    by_key y x,
    by_key z x,
    by_key z y,
    o.connected (key x) (key y),
    o.trans (key x) (key y) (key x),
    o.irrefl (key x),
    o.trans (key z) (key x) (key y),
    o.trans (key z) (key y) (key x),
    insert_by_comm x y zs ne,
  )

  sort_by-permᴰ :
      {xs ys : List A} → Permᴰ xs ys → Nodup (map key xs) → sort_by less xs ≡ sort_by less ys
  unfolding sort_by
  sort_by-permᴰ Permᴰ.nil d = refl
  sort_by-permᴰ (Permᴰ.cons {a = a} {b = b} {l₁ = l} {l₂ = m} e p) d =
      rw e (ap (insert_by less b) (sort_by-permᴰ p (Nodup-cons.0 d).1))
  sort_by-permᴰ (Permᴰ.swap {a = a} {b = b} {a' = c} {b' = e} {l = l} p q) d =
      rw (← p, ← q)
        (insert_by_comm a b (sort_by less l)
          (λ h. (Nodup-cons.0 d).0 (subst (λ k. Mem k (key b ∷ map key l)) (sym h) mem-cons_self)))
  sort_by-permᴰ (Permᴰ.trans p q) d =
      sort_by-permᴰ p d ∙ sort_by-permᴰ q (Perm.nodup (Perm.map key ∣ p ∣₁) d)

  -- With distinct keys the result does not depend on the order of the items.
  pub sort_by-perm_eq :
      IsSet A
      → {xs ys : List A} → Perm xs ys
      → Nodup (map key xs)
      → sort_by less xs ≡ sort_by less ys
  sort_by-perm_eq set p d = ∥∥₁_elim p (is_set set _ _) (λ q. sort_by-permᴰ q d)

  -- No item is followed by one that is less.
  abbrev pub IsSorted : List A → Type ℓ
  IsSorted [] = Unit
  IsSorted (x ∷ xs) = All (λ y. less y x ≡ false) xs × IsSorted xs

  asym : (x y : A) → less x y ≡ true → less y x ≡ false
  asym x y h =
      ground (arith, by_key x y, by_key y x, o.trans (key x) (key y) (key x), o.irrefl (key x))

  not_less : (x y z : A) → less x y ≡ false → less y z ≡ false → less x z ≡ false
  not_less x y z h k = ground (
    arith,
    by_key x y,
    by_key y z,
    by_key x z,
    o.connected (key y) (key z),
    o.trans (key x) (key z) (key y),
  )

  insert_by-IsSorted : (x : A) (ys : List A) → IsSorted ys → IsSorted (insert_by less x ys)
  unfolding insert_by
  insert_by-IsSorted x [] s = (tt, tt)
  insert_by-IsSorted x (y ∷ ys) s = elim (Bool-cases (less y x)) [
    | inl e ↦ rw e (
      All-insert_by less (λ z. less z y ≡ false) x ys (asym y x e) s.0,
      insert_by-IsSorted x ys s.1,
    )
    | inr e ↦ rw e ((e, All-mono (λ z h. not_less z y x h e) ys s.0), s)
  ]

  pub sort_by-IsSorted : (xs : List A) → IsSorted (sort_by less xs)
  unfolding sort_by
  sort_by-IsSorted [] = tt
  sort_by-IsSorted (x ∷ xs) = insert_by-IsSorted x (sort_by less xs) (sort_by-IsSorted xs)

  insert_by_front :
      (x : A) (zs : List A) → All (λ z. less z x ≡ false) zs → insert_by less x zs ≡ x ∷ zs
  unfolding insert_by
  insert_by_front x [] h = refl
  insert_by_front x (z ∷ zs) h = rw (h.0) refl

  module _ (p : A → Bool) where
    select-insert_by :
        (x : A) (ys : List A)
        → IsSorted ys
        → select p (insert_by less x ys)
          ≡ (if p x then insert_by less x (select p ys) else select p ys)
    unfolding insert_by
    select-insert_by x [] s = refl
    select-insert_by x (y ∷ ys) s = elim (Bool-cases (less y x)) [
      | inl e ↦ ground (arith, e, select-insert_by x ys s.1)
      | inr e ↦ rw e (
          ap (λ l. if p x then l else select p (y ∷ ys))
            (sym (
              insert_by_front x (select p (y ∷ ys))
                (All-select _ p (y ∷ ys) (e, All-mono (λ z h. not_less z y x h e) ys s.0)))))
    ]

    -- To pick items and to sort them may be done in either order.
    pub select-sort_by : (xs : List A) → select p (sort_by less xs) ≡ sort_by less (select p xs)
    unfolding sort_by
    select-sort_by [] = refl
    select-sort_by (x ∷ xs) =
        select-insert_by x (sort_by less xs) (sort_by-IsSorted xs)
        ∙ ground (arith, select-sort_by xs)

  sort_by_sorted : (xs : List A) → IsSorted xs → sort_by less xs ≡ xs
  unfolding sort_by
  sort_by_sorted [] s = refl
  sort_by_sorted (x ∷ xs) s =
      ap (insert_by less x) (sort_by_sorted xs s.1) ∙ insert_by_front x xs s.0

  -- To sort once more changes nothing.
  pub sort_by_idem : (xs : List A) → sort_by less (sort_by less xs) ≡ sort_by less xs
  sort_by_idem xs = sort_by_sorted (sort_by less xs) (sort_by-IsSorted xs)
