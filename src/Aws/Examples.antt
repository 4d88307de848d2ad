-- ===== src/Aws/Examples.antt =====
-- A request whose results come in two pages.
use aws_cost_exporter.Base.{
  false, min, ◌*◌, ◌^◌, ℕ, ◌==◌, ◌≡◌, refl, [], ◌∷◌, if◌then◌else◌, none, some, arith, true, List,
  All, length,
}
use aws_cost_exporter.Base.Text.{Text, text}
use aws_cost_exporter.Base.Int.{ℤ, pos, ◌≤ℤ◌}
use aws_cost_exporter.Base.Sort.{sort_by}
use aws_cost_exporter.Base.Keys.{list_same}
use aws_cost_exporter.Base.Text.{byte_length}
use aws_cost_exporter.Domain.Records.{Account, sort_accounts}
use aws_cost_exporter.Cache.Policy.{is_account_id}
use aws_cost_exporter.Snapshot.Labels.{Fresh}
use aws_cost_exporter.Samples.{prod, first_account, second_account}
use aws_cost_exporter.Aws.Organizations.{
  described_by, OrganizationReader, ListedAccount, account_of, answered, keep_account, list_account,
  list_page, list_pages, read_accounts,
}
use aws_cost_exporter.Aws.Accounts.{records, IsWellFormed, ids_of, read_accounts-ok}
use aws_cost_exporter.Aws.Failures.{backoff_delay, ErrorReader}
use aws_cost_exporter.Aws.Retries.{IsJitter, backoff_delay_lem}
use aws_cost_exporter.Errors.{ok}
use aws_cost_exporter.Snapshot.Validate.{contains}
use aws_cost_exporter.Aws.Pagination.{Page, page, Api, Outcome, read}
use aws_cost_exporter.Aws.Pages.{Chain, last, more, read-ends, read-Chain}

abbrev first_page : Page ℕ
first_page = record { results = 10 ∷ 20 ∷ []; token = text "next" }

abbrev last_page : Page ℕ
last_page = record { results = 30 ∷ []; token = [] }

abbrev api : Api ℕ
api = record {
  answer = λ n token. if n == 1 then page first_page else page last_page;
  context_error = λ n. none;
}

two_pages : Chain api 1 [] (text "next" ∷ []) (10 ∷ 20 ∷ 30 ∷ [])
two_pages = more first_page refl refl (last last_page refl refl)

read-ends_example : (o : Outcome ℕ) × (read api 5 [] ≡ some o)
read-ends_example = read-ends api 5 []

read-Chain_example : read api 5 [] ≡ some (record { result = ok (10 ∷ 20 ∷ 30 ∷ []); observed = 2 })
unfolding contains
read-Chain_example =
    read-Chain api 5 [] (text "next" ∷ []) (10 ∷ 20 ∷ 30 ∷ []) two_pages (refl, tt) (omega arith)
      (λ n. refl)

-- Two accounts, of which the allowlist lets the first through.
abbrev organization_reader : OrganizationReader
organization_reader = record {
  target = prod;
  max_pages = pos 2;
  allowlist = first_account ∷ [];
  series_limit = pos 1;
}

abbrev listed : Text → ListedAccount
listed id = record { id = id; name = text "team"; state = []; status = text "ACTIVE" }

abbrev accounts_page : Page ListedAccount
accounts_page = record { results = listed second_account ∷ listed first_account ∷ []; token = [] }

abbrev accounts_api : Api ListedAccount
accounts_api = record { answer = λ n token. page accounts_page; context_error = λ n. none }

abbrev first_record : Account
first_record = account_of prod (listed first_account)

abbrev errors : ErrorReader
errors = record {
  failure_of = λ e. record { is_canceled = false; is_late = false; network = none; code = none };
  to_lower = λ code. code;
}

accounts_read :
    read_accounts errors organization_reader (ok true) accounts_api ≡ ok (first_record ∷ [])
unfolding read_accounts described_by list_pages answered list_page list_account keep_account
    contains is_account_id byte_length sort_accounts sort_by list_same
accounts_read = refl

read_accounts-ok_example :
    (ok true ≡ ok true)
    × (tokens : List Text) × (accounts : List ListedAccount) × Chain accounts_api 1 [] tokens
        accounts
    × (first_record ∷ [] ≡ sort_accounts (records organization_reader accounts))
    × (pos (length (first_record ∷ [])) ≤ℤ pos 1)
    × All IsWellFormed accounts
    × Fresh [] (ids_of accounts)
read_accounts-ok_example =
    read_accounts-ok errors organization_reader (ok true) accounts_api (first_record ∷ [])
      (omega arith) accounts_read

-- The whole delay, without its random fraction
abbrev jitter : ℤ → ℤ
jitter delay = delay

jitter-IsJitter : IsJitter jitter
jitter-IsJitter n = (omega arith, omega arith)

-- A base delay of 3 and a maximum of 10
backoff_delay_lem_example :
    let delay = backoff_delay jitter (pos 3) (pos 10) (pos 3) in
    (delay ≡ jitter (pos (min 10 (3 * 2 ^ 2))))
    × (pos 0 ≤ℤ delay)
    × (delay ≤ℤ pos 10)
    × (delay ≤ℤ pos (3 * 2 ^ 2))
backoff_delay_lem_example = backoff_delay_lem jitter 3 10 2 jitter-IsJitter (omega arith)
