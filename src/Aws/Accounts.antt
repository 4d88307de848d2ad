-- ===== src/Aws/Accounts.antt =====
-- What ReadAccounts of internal/aws/organizations returns.
use aws_cost_exporter.Base.{
  ℕ, zero, suc, ◌≡◌, refl, sym, ap, subst, ◌∙◌, true, false, not, ◌||◌, List, [], ◌∷◌, ◌++◌, map,
  select, select-append, length, length-append, All, All-append, if◌then◌else◌, Option, none, some,
  arith, Bool-cases, Bool, inl, inr,
}
use mathlib.Core.List.{append_assoc, append-nil, map-append}
use aws_cost_exporter.Base.Int.{pos, leb_ℤ, pos_part, ◌≤ℤ◌}
use aws_cost_exporter.Base.Sort.{length-sort_by}
use aws_cost_exporter.Base.Text.{Text, is_empty}
use aws_cost_exporter.Domain.Records.{Account, sort_accounts, account_before}
use aws_cost_exporter.Errors.{
  Error, Result, ok, err, ◌>>◌, fail_if, bind_ok, check_passed, ok_injective, invalid_response,
  account_limit_exceeded,
}
use aws_cost_exporter.Cache.Policy.{is_account_id}
use aws_cost_exporter.Snapshot.Labels.{Fresh}
use aws_cost_exporter.Aws.Pagination.{Page, Answer, page, no_page, failed, Api}
use aws_cost_exporter.Aws.Pages.{Chain, last, more}
use aws_cost_exporter.Aws.Failures.{ErrorReader}
use aws_cost_exporter.Aws.Organizations.{
  described_by, OrganizationReader, ListedAccount, Listing, account_of, is_selected, answered,
  keep_account, list_account, list_page, list_pages, read_accounts,
}

abbrev pub IsWellFormed : ListedAccount → Type 0
IsWellFormed account = (is_account_id account.id ≡ true) × (is_empty account.name ≡ false)

abbrev pub ids_of : List ListedAccount → List Text
ids_of = map (λ account. account.id)

abbrev seen_after : List Text → List Text → List Text
seen_after seen [] = seen
seen_after seen (id ∷ ids) = seen_after (id ∷ seen) ids

Fresh-append :
    (seen a b : List Text) → Fresh seen a → Fresh (seen_after seen a) b → Fresh seen (a ++ b)
Fresh-append seen [] b h k = k
Fresh-append seen (x ∷ xs) b h k = (h.0, Fresh-append (x ∷ seen) xs b h.1 k)

well_formed : (a b : Bool) → (not a || b) ≡ false → (a ≡ true) × (b ≡ false)
well_formed a b h = (ground arith, ground arith)

module _ (reader : OrganizationReader) where
  -- The records of the accounts that the allowlist lets through
  abbrev pub records : List ListedAccount → List Account
  records accounts = map (account_of reader.target) (select (is_selected reader.allowlist) accounts)

  abbrev Bounded : List Account → Type 0
  Bounded values = pos (length values) ≤ℤ reader.series_limit

  -- What a loop over accounts made of a listing
  abbrev Grows : List ListedAccount → Listing → Listing → Type 0
  Grows accounts before after =
      (after.values ≡ before.values ++ records accounts)
      × All IsWellFormed accounts
      × Fresh before.seen (ids_of accounts)
      × (after.seen ≡ seen_after before.seen (ids_of accounts))
      × (Bounded before.values → Bounded after.values)

  added_bound :
      (values : List Account) (account : Account)
      → leb_ℤ reader.series_limit (pos (length values)) ≡ false
      → Bounded (values ++ account ∷ [])
  added_bound values account h = rw (length-append values (account ∷ [])) (ground (arith, h))

  -- The rest of a round, for either outcome of the test
  kept :
      (chosen : Bool) (account : ListedAccount) (before after : Listing)
      → (if not chosen
          then ok before
          else fail_if
              (leb_ℤ reader.series_limit (pos (length before.values)))
              account_limit_exceeded
            >> ok
                (record before { values = before.values ++ account_of reader.target account ∷ [] }))
        ≡ ok after
      → (after.values
          ≡ before.values ++ map (account_of reader.target) (if chosen then account ∷ [] else []))
        × (after.seen ≡ before.seen)
        × (Bounded before.values → Bounded after.values)
  kept false account before after h =
      subst
        (λ (l : Listing).
          (l.values ≡ before.values ++ [])
          × (l.seen ≡ before.seen)
          × (Bounded before.values → Bounded l.values))
        (ok_injective h) (sym (append-nil before.values), refl, λ k. k)
  kept true account before after h =
      let (room, made) = check_passed _ account_limit_exceeded _ h in
      subst
        (λ (l : Listing).
          (l.values ≡ before.values ++ account_of reader.target account ∷ [])
          × (l.seen ≡ before.seen)
          × (Bounded before.values → Bounded l.values))
        (ok_injective made) (refl, refl, λ k. added_bound before.values _ room)

  keep_account-values :
      (account : ListedAccount) (before after : Listing)
      → keep_account reader account before ≡ ok after
      → (after.values ≡ before.values ++ records (account ∷ []))
        × (after.seen ≡ before.seen)
        × (Bounded before.values → Bounded after.values)
  unfolding keep_account
  keep_account-values account before after h =
      kept (is_selected reader.allowlist account) account before after h

  list_account-Grows :
      (account : ListedAccount) (before after : Listing)
      → list_account reader account before ≡ ok after
      → Grows (account ∷ []) before after
  unfolding list_account
  list_account-Grows account before after h =
      let (fine, h1) = check_passed _ invalid_response _ h in
      let (fresh, h2) = check_passed _ invalid_response _ h1 in
      let (values, seen, bounded) = keep_account-values account _ after h2 in
      (values, (well_formed _ _ fine, tt), (fresh, tt), seen, bounded)

  records-append : (a b : List ListedAccount) → records (a ++ b) ≡ records a ++ records b
  records-append a b =
      ap (map (account_of reader.target)) (select-append (is_selected reader.allowlist) a b)
      ∙ map-append (account_of reader.target) _ _

  seen_after-append :
      (seen a b : List Text) → seen_after seen (a ++ b) ≡ seen_after (seen_after seen a) b
  seen_after-append seen [] b = refl
  seen_after-append seen (x ∷ a) b = seen_after-append (x ∷ seen) a b

  Grows-append :
      (a b : List ListedAccount) (first middle final : Listing)
      → Grows a first middle
      → Grows b middle final
      → Grows (a ++ b) first final
  Grows-append a b first middle final (v, w, f, s, k) (v', w', f', s', k') = (
    v'
        ∙ ap (λ l. l ++ records b) v
        ∙ append_assoc first.values (records a) (records b)
        ∙ ap (λ l. first.values ++ l) (sym (records-append a b)),
    All-append IsWellFormed a b w w',
    subst (Fresh first.seen) (sym (map-append _ a b))
        (Fresh-append first.seen (ids_of a) (ids_of b) f (subst (λ l. Fresh l (ids_of b)) s f')),
    s'
        ∙ ap (λ l. seen_after l (ids_of b)) s
        ∙ sym (seen_after-append first.seen (ids_of a) (ids_of b))
        ∙ ap (seen_after first.seen) (sym (map-append _ a b)),
    λ h. k' (k h),
  )

  list_page-Grows :
      (accounts : List ListedAccount) (before after : Listing)
      → list_page reader accounts before ≡ ok after
      → Grows accounts before after
  unfolding list_page
  list_page-Grows [] before after h =
      subst (Grows [] before) (ok_injective h)
        (sym (append-nil before.values), tt, tt, refl, λ k. k)
  list_page-Grows (account ∷ accounts) before after h =
      let (next, first, rest) = bind_ok (list_account reader account before) _ h in
      Grows-append (account ∷ []) accounts before next after
        (list_account-Grows account before next first) (list_page-Grows accounts next after rest)

taken : {A : Type 0} (b : Bool) (x y z : A) → b ≡ true → (if b then x else y) ≡ z → x ≡ z
taken true x y z h e = e
taken false x y z h e = cc

skipped : {A : Type 0} (b : Bool) (x y z : A) → b ≡ false → (if b then x else y) ≡ z → y ≡ z
skipped true x y z h e = cc
skipped false x y z h e = e

answered-page :
    (errors : ErrorReader) (context : Option Error) (answer : Answer ListedAccount)
    (p : Page ListedAccount)
    → answered errors context answer ≡ ok p
    → answer ≡ page p
unfolding answered
answered-page errors (some e) answer p h = cc
answered-page errors none (failed e) p h = cc
answered-page errors none no_page p h = cc
answered-page errors none (page q) p h = ap page (ok_injective h)

module _ (errors : ErrorReader) (reader : OrganizationReader) (api : Api ListedAccount) where
  -- The outcome of a loop that starts with a listing
  abbrev Reads : ℕ → Text → Listing → List Account → Type 0
  Reads number token before out =
      (tokens : List Text) × (accounts : List ListedAccount) × Chain api number token tokens
        accounts
      × (out ≡ sort_accounts (before.values ++ records reader accounts))
      × All IsWellFormed accounts
      × Fresh before.seen (ids_of accounts)
      × (Bounded reader before.values → Bounded reader (before.values ++ records reader accounts))

  read_last :
      (number : ℕ) (token : Text) (before next : Listing) (p : Page ListedAccount)
      (out : List Account)
      → api.answer number token ≡ page p
      → Grows reader p.results before next
      → is_empty p.token ≡ true
      → sort_accounts next.values ≡ out
      → Reads number token before out
  read_last number token before next p out answer (v, w, f, s, k) empty made = (
    [],
    p.results,
    last p answer empty,
    sym made ∙ ap sort_accounts v,
    w,
    f,
    λ h. subst (Bounded reader) v (k h),
  )

  read_more :
      (number : ℕ) (token : Text) (before next : Listing) (p : Page ListedAccount)
      (out : List Account)
      → api.answer number token ≡ page p
      → Grows reader p.results before next
      → is_empty p.token ≡ false
      → Reads (suc number) p.token next out
      → Reads number token before out
  read_more number token before next p out answer grown more_follow
        (tokens, accounts, chain, made, w, f, k) =
      let final : Listing = record {
        seen = seen_after next.seen (ids_of accounts);
        values = next.values ++ records reader accounts;
      } in
      let (v', w', f', s', k') =
        Grows-append reader p.results accounts before next final grown (refl, w, f, refl, k) in
      (
        p.token ∷ tokens,
        p.results ++ accounts,
        more p answer more_follow chain,
        made ∙ ap sort_accounts v',
        w',
        f',
        λ h. subst (Bounded reader) v' (k' h),
      )

  list_pages-Reads :
      (left number : ℕ) (token : Text) (tokens : List Text) (before : Listing) (out : List Account)
      → list_pages errors reader api left number token tokens before ≡ ok out
      → Reads number token before out
  unfolding list_pages
  list_pages-Reads zero number token tokens before out h = cc
  list_pages-Reads (suc left) number token tokens before out h =
      let (p, given, h1) =
        bind_ok (answered errors (api.context_error number) (api.answer number token)) _ h in
      let answer = answered-page errors _ _ p given in
      let (next, listed, h2) = bind_ok (list_page reader p.results before) _ h1 in
      let grown = list_page-Grows reader p.results before next listed in
      elim (Bool-cases (is_empty p.token)) [
        | inl empty ↦
            read_last number token before next p out answer grown empty
              (ok_injective (taken _ _ _ _ empty h2))
        | inr full ↦ read_more number token before next p out answer grown full (
            list_pages-Reads left (suc number) p.token (p.token ∷ tokens) next out
              (check_passed _ invalid_response _ (skipped _ _ _ _ full h2)).1)
      ]

given_true : (b : Bool) → not b ≡ false → b ≡ true
given_true b h = ground arith

counted :
    (reader : OrganizationReader) (accounts : List ListedAccount) (values : List Account)
    → values ≡ sort_accounts (records reader accounts)
    → length values ≡ length (records reader accounts)
unfolding sort_accounts
counted reader accounts values h =
    ap length h ∙ length-sort_by account_before (records reader accounts)

described_by-ok :
    (errors : ErrorReader) (r : Result Bool) (b : Bool) → described_by errors r ≡ ok b → r ≡ ok b
unfolding described_by
described_by-ok errors (err e) b h = cc
described_by-ok errors (ok given) b h = h

-- With a limit of series that is not negative, as New asks for, ReadAccounts returns accounts only when the organization was described and the pages of the answers
-- ended; it then returns, in order, the records of the accounts of all the pages that the allowlist
-- lets through, no more than the limit of series. Every account of the pages, returned or not, then
-- had a well-formed ID and a name, and none came twice.
pub read_accounts-ok :
    (errors : ErrorReader) (reader : OrganizationReader) (described : Result Bool)
    (api : Api ListedAccount) (values : List Account)
    → pos 0 ≤ℤ reader.series_limit
    → read_accounts errors reader described api ≡ ok values
    → (described ≡ ok true)
      × (tokens : List Text) × (accounts : List ListedAccount) × Chain api 1 [] tokens accounts
      × (values ≡ sort_accounts (records reader accounts))
      × (pos (length values) ≤ℤ reader.series_limit)
      × All IsWellFormed accounts
      × Fresh [] (ids_of accounts)
unfolding read_accounts
read_accounts-ok errors reader described api values room h =
    let (given, first, h1) = bind_ok (described_by errors described) _ h in
    let (organization, h2) = check_passed (not given) invalid_response _ h1 in
    let (tokens, accounts, chain, made, w, f, k) =
      list_pages-Reads errors reader api (pos_part reader.max_pages) 1 [] []
        (record { seen = []; values = [] }) values h2 in
    (
      described_by-ok errors described given first ∙ ap ok (given_true given organization),
      tokens,
      accounts,
      chain,
      made,
      subst (λ n. pos n ≤ℤ reader.series_limit) (sym (counted reader accounts values made))
          (k room),
      w,
      f,
    )
