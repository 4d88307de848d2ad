-- ===== src/Cache/Selection.antt =====
-- What mergeParts publishes of the account metadata: the accounts that the policies allow, and for
-- no target more than its limit.
use aws_cost_exporter.Base.{
  ℕ, ◌≡◌, refl, sym, ap, subst, ◌∙◌, true, false, List, [], ◌∷◌, ◌++◌, map, arith, if◌then◌else◌,
  ◌=?◌, length, select, select-append, length-append, ◌⊎◌, Bool-cases, inl, inr,
}
use mathlib.Core.List.{append_assoc, append-nil}
use aws_cost_exporter.Base.Int.{pos, ◌≤ℤ◌}
use aws_cost_exporter.Base.Text.{text_same}
use aws_cost_exporter.Base.Dict.{Dict, find, find_or, put, find-put}
use aws_cost_exporter.Domain.Identity.{TargetId, CollectorId}
use aws_cost_exporter.Domain.Records.{Account}
use aws_cost_exporter.Errors.{ok, fail_if, bind_ok, ok_injective, organization_series_limit}
use aws_cost_exporter.Snapshot.{Snapshot, merge, new_with_data}
use aws_cost_exporter.Snapshot.Stable.{
  SameButAccounts, new_with_data-SameButAccounts, new_with_data-picked,
}
use aws_cost_exporter.Snapshot.Validate.{validate_unique}
use aws_cost_exporter.Cache.Policy.{
  Policy, Policies, Sets, Chosen, included, choose_one, choose, exceeded, no_policy, observe, allow,
  chosen_accounts, bound_accounts, merge_parts,
}
use mathlib.Core.Option.{Option, none, some}
use mathlib.Core.Option

module _ (allowed : Sets) where
  -- The visit picks the accounts that are allowed, in order.
  choose-selected :
      (accounts : List Account) (chosen : Chosen)
      → (choose allowed accounts chosen).selected
        ≡ chosen.selected ++ select (included allowed) accounts
  unfolding choose choose_one
  choose-selected [] chosen = sym (append-nil _)
  choose-selected (a ∷ rest) chosen = elim (Bool-cases (included allowed a)) [
    | inl e ↦
        choose-selected rest (choose_one allowed a chosen)
        ∙ rw e (append_assoc chosen.selected (a ∷ []) (select (included allowed) rest))
    | inr e ↦ choose-selected rest (choose_one allowed a chosen) ∙ rw e refl
  ]

abbrev Counted : Chosen → Type 0
Counted c = (t : TargetId) → find_or 0 t c.counts ≡ length (select (λ a. a.target =? t) c.selected)

find_or-put :
    (k j : TargetId) (v : ℕ) (m : Dict TargetId ℕ)
    → find_or 0 j (put k v m) ≡ (if k =? j then v else find_or 0 j m)
unfolding find_or
find_or-put k j v m =
    rw (find-put k j v m)
      (elim (k =? j)
        as (λ b.
          Option.get_or (if b then some v else find j m) 0
          ≡ (if b then v else Option.get_or (find j m) 0)) [ true ↦ refl | false ↦ refl ])

choose_one-Counted :
    (allowed : Sets) (a : Account) (c : Chosen) → Counted c → Counted (choose_one allowed a c)
unfolding choose_one
choose_one-Counted allowed a c h t = elim (Bool-cases (included allowed a)) [
  | inl e ↦
      rw (e, find_or-put, select-append, length-append)
        (ground (arith, h t, h a.target, text_same.same_iff a.target t))
  | inr e ↦ rw e (h t)
]

abbrev no_choice : Chosen
no_choice = record { selected = []; counts = [] }

no_choice-Counted : Counted no_choice
unfolding find_or find
no_choice-Counted t = refl

choose-Counted :
    (allowed : Sets) (accounts : List Account) (c : Chosen)
    → Counted c
    → Counted (choose allowed accounts c)
unfolding choose
choose-Counted allowed [] c h = h
choose-Counted allowed (a ∷ rest) c h =
    choose-Counted allowed rest (choose_one allowed a c) (choose_one-Counted allowed a c h)

-- Where no count is exceeded, every target that is counted keeps to its limit.
exceeded-find_or :
    (policies : Policies) (counts : Dict TargetId ℕ) (t : TargetId)
    → exceeded policies counts ≡ false
    → (find_or 0 t counts ≡ 0)
      ⊎ (pos (find_or 0 t counts) ≤ℤ (find_or no_policy t policies).series_limit)
unfolding exceeded find find_or
exceeded-find_or policies [] t h = inl refl
exceeded-find_or policies ((k, n) ∷ counts) t h = elim (Bool-cases (k =? t)) [
  | inl e ↦ rw e (
      inr (
        subst (λ j. pos n ≤ℤ (find_or no_policy j policies).series_limit)
          ((text_same.same_iff k t).0 e) (ground arith)))
  | inr e ↦ rw e (exceeded-find_or policies counts t (ground arith))
]

-- What a successful merge under policies consists of.
module _ (policy : TargetId × Policy) (others : Policies) (merged : Snapshot) where
  abbrev policies : Policies
  policies = policy ∷ others

  abbrev chosen : Chosen
  chosen = chosen_accounts policies merged

  bound_accounts-ok :
      (s : Snapshot)
      → bound_accounts policies merged ≡ ok s
      → (exceeded policies chosen.counts ≡ false)
        × (s ≡ new_with_data (record merged { accounts = chosen.selected }))
        × (validate_unique s ≡ ok tt)
  unfolding bound_accounts
  bound_accounts-ok s h =
      let bound = new_with_data (record merged { accounts = chosen.selected }) in
      let (_, within, rest) =
        bind_ok (fail_if (exceeded policies chosen.counts) organization_series_limit) _ h in
      let (_, unique, made) = bind_ok (validate_unique bound) _ rest in
      (
        ground arith,
        sym (ok_injective made),
        subst (λ t. validate_unique t ≡ ok tt) (ok_injective made) unique,
      )

pub merge_parts-accounts :
    (policy : TargetId × Policy) (others : Policies) (parts : Dict CollectorId Snapshot)
    (s : Snapshot)
    → merge_parts (policy ∷ others) parts ≡ ok s
    → let merged = merge (map (λ part. part.1) parts) in
      let allowed = allow (policy ∷ others) (observe merged.costs []) [] in
      (s.accounts ≡ select (included allowed) merged.accounts)
      × ((t : TargetId)
          → let n = length (select (λ a. a.target =? t) s.accounts) in
            (n ≡ 0) ⊎ (pos n ≤ℤ (find_or no_policy t (policy ∷ others)).series_limit))
      × SameButAccounts s merged
unfolding merge_parts chosen_accounts
merge_parts-accounts policy others parts s h =
    let values = map (λ part. part.1) parts in
    let merged = merge values in
    let allowed = allow (policy ∷ others) (observe merged.costs []) [] in
    let (_, _, rest) = bind_ok (validate_unique merged) _ h in
    let (within, made, _) = bound_accounts-ok policy others merged s rest in
    let picked = choose-selected allowed merged.accounts no_choice in
    let made' = made ∙ ap (λ l. new_with_data (record merged { accounts = l })) picked in
    let accounts = ap (λ u. u.accounts) made' ∙ new_with_data-picked values (included allowed) in
    (
      accounts,
      λ t.
          subst (λ n. (n ≡ 0) ⊎ (pos n ≤ℤ (find_or no_policy t (policy ∷ others)).series_limit))
            (choose-Counted allowed merged.accounts no_choice no_choice-Counted t
              ∙ ap (λ l. length (select (λ a. a.target =? t) l)) (picked ∙ sym accounts))
            (exceeded-find_or (policy ∷ others) _ t within),
      subst (λ u. SameButAccounts u merged) (sym made)
          (new_with_data-SameButAccounts values (chosen policy others merged).selected),
    )
