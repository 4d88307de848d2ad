-- ===== src/Aws/Organizations.antt =====
-- internal/aws/organizations/reader.go. The describe call and the pages of ListAccounts are what the
-- API answers, with the optional strings as aws.ToString has them. An empty token asks for the first
-- page. The observer, which only counts, is left out.
use aws_cost_exporter.Base.{
  ℕ, zero, suc, ◌==◌, Bool, ◌||◌, not, List, [], ◌∷◌, ◌++◌, if◌then◌else◌, length, ◌=?◌, Option,
  none, some,
}
use aws_cost_exporter.Base.Int.{ℤ, pos, leb_ℤ, ltb_ℤ, pos_part}
use aws_cost_exporter.Base.Text.{Text, text, text_same, is_empty}
use aws_cost_exporter.Domain.Identity.{TargetId}
use aws_cost_exporter.Domain.Records.{Account, sort_accounts}
use aws_cost_exporter.Errors.{
  Error, Result, ok, err, ◌>>=◌, ◌>>◌, fail_if, invalid_response, page_limit_exceeded,
  invalid_organizations_config, account_limit_exceeded,
}
use aws_cost_exporter.Cache.Policy.{is_account_id}
use aws_cost_exporter.Snapshot.Validate.{contains}
use aws_cost_exporter.Aws.Failures.{ErrorReader, classified_by}
use aws_cost_exporter.Aws.Pagination.{Page, Answer, page, no_page, failed, Api}

-- organizations.Policy
pub record AccountPolicy : Type 0 where
  pub account_ids : List Text
  pub series_limit : ℤ

-- organizations.Reader
pub record OrganizationReader : Type 0 where
  pub target : TargetId
  pub max_pages : ℤ
  pub allowlist : List Text
  pub series_limit : ℤ

-- The loop of `New` over the account IDs, with those so far
unfoldable pub know_accounts : List Text → List Text → Result (List Text)
know_accounts [] known = ok known
know_accounts (id ∷ ids) known = do
  fail_if (not (is_account_id id)) invalid_organizations_config
  fail_if (contains known id) invalid_organizations_config
  know_accounts ids (id ∷ known)

-- `New`; the Booleans say whether the API and the retryer are nil.
unfoldable pub new_organization_reader :
    TargetId → Bool → ℤ → AccountPolicy → Bool → Result OrganizationReader
unfolding know_accounts
new_organization_reader target api_nil max_pages policy retryer_nil = do
  fail_if
      (is_empty target
        || api_nil
        || leb_ℤ max_pages (pos 0)
        || leb_ℤ policy.series_limit (pos 0)
        || ltb_ℤ policy.series_limit (pos (length policy.account_ids))
        || retryer_nil)
      invalid_organizations_config
  allowlist ← know_accounts policy.account_ids []
  ok (record {
    target = target;
    max_pages = max_pages;
    allowlist = allowlist;
    series_limit = policy.series_limit;
  })

-- The account of an answer, in the fields that are read
pub record ListedAccount : Type 0 where
  pub id : Text
  pub name : Text
  pub state : Text
  pub status : Text

-- `accountStatus`
unfoldable pub account_status : Text → Text → Text
account_status state status =
    if state =? text "PENDING_ACTIVATION"
      || state =? text "ACTIVE"
      || state =? text "SUSPENDED"
      || state =? text "PENDING_CLOSURE"
      || state =? text "CLOSED"
    then state
    else if status =? text "ACTIVE"
        || status =? text "SUSPENDED"
        || status =? text "PENDING_CLOSURE"
    then status
    else text "UNKNOWN"

unfoldable pub account_of : TargetId → ListedAccount → Account
unfolding account_status
account_of target account = record {
  target = target;
  account_id = account.id;
  name = account.name;
  status = account_status account.state account.status;
}

-- The second condition of the loop over a page
abbrev pub is_selected : List Text → ListedAccount → Bool
is_selected allowlist account = length allowlist == 0 || contains allowlist account.id

-- `seenAccounts` and `values`
pub record Listing : Type 0 where
  pub seen : List Text
  pub values : List Account

-- What a call of ListAccounts gives, after `ctx.Err()`
unfoldable pub answered :
    ErrorReader → Option Error → Answer ListedAccount → Result (Page ListedAccount)
answered errors (some e) answer = err e
answered errors none (failed e) = err (classified_by errors e)
answered errors none no_page = err invalid_response
answered errors none (page p) = ok p

-- The outcome of DescribeOrganization: whether it gives an organization
unfoldable pub described_by : ErrorReader → Result Bool → Result Bool
described_by errors (err e) = err (classified_by errors e)
described_by errors (ok given) = ok given

module _ (reader : OrganizationReader) where
  -- The rest of a round, for an account that is not seen before
  unfoldable pub keep_account : ListedAccount → Listing → Result Listing
  unfolding account_of
  keep_account account listing =
      if not (is_selected reader.allowlist account)
      then ok listing
      else fail_if (leb_ℤ reader.series_limit (pos (length listing.values))) account_limit_exceeded
        >> ok (record listing { values = listing.values ++ account_of reader.target account ∷ [] })

  -- One round of the loop over the accounts of a page
  unfoldable pub list_account : ListedAccount → Listing → Result Listing
  unfolding keep_account
  list_account account listing = do
    fail_if (not (is_account_id account.id) || is_empty account.name) invalid_response
    fail_if (contains listing.seen account.id) invalid_response
    keep_account account (record listing { seen = account.id ∷ listing.seen })

  unfoldable pub list_page : List ListedAccount → Listing → Result Listing
  unfolding list_account
  list_page [] listing = ok listing
  list_page (account ∷ accounts) listing = do
    next ← list_account account listing
    list_page accounts next

module _ (errors : ErrorReader) (reader : OrganizationReader) where
  -- The loop over the pages, on the calls that are left of MaxPages
  unfoldable pub list_pages :
      Api ListedAccount → ℕ → ℕ → Text → List Text → Listing → Result (List Account)
  unfolding list_page answered
  list_pages api zero number token tokens listing = err page_limit_exceeded
  list_pages api (suc left) number token tokens listing =
      answered errors (api.context_error number) (api.answer number token) >>= λ p.
      list_page reader p.results listing >>= λ next.
      let rest = list_pages api left (suc number) p.token (p.token ∷ tokens) next in
      if is_empty p.token
      then ok (sort_accounts next.values)
      else fail_if (contains tokens p.token) invalid_response >> rest

  -- `ReadAccounts`; the first argument says whether DescribeOrganization gives an organization.
  unfoldable pub read_accounts : Result Bool → Api ListedAccount → Result (List Account)
  unfolding list_pages described_by
  read_accounts described api = do
    given ← described_by errors described
    fail_if (not given) invalid_response
    list_pages api (pos_part reader.max_pages) 1 [] [] (record { seen = []; values = [] })
