-- ===== src/Aws/Pagination.antt =====
-- internal/aws/costexplorer/pagination.go: UsagePaginator.Read. The page that the API answers depends
-- on the number of the call and on the token; a nil token is the empty text, as aws.ToString has it.
use aws_cost_exporter.Base.{
  ℕ, zero, suc, List, [], ◌∷◌, ◌++◌, if◌then◌else◌, ltb, Option, none, some,
}
use aws_cost_exporter.Base.Int.{ℤ, pos, leb_ℤ, pos_part}
use aws_cost_exporter.Base.Text.{Text, is_empty}
use aws_cost_exporter.Errors.{
  Result, ok, err, ◌>>◌, fail_if, Error, invalid_page_limit, page_limit_exceeded, invalid_page,
  duplicate_page_token,
}
use aws_cost_exporter.Snapshot.Validate.{contains}

-- GetCostAndUsageOutput, in the fields that are read
pub record Page (R : Type 0) : Type 0 where
  pub results : List R
  pub token : Text

-- What a call of GetCostAndUsage gives; `no_page` is nil without an error.
pub data Answer (R : Type 0) : Type 0 where
  page : Page R → Answer R
  no_page : Answer R
  failed : Error → Answer R

pub record Api (R : Type 0) : Type 0 where
  pub answer : ℕ → Text → Answer R
  -- `ctx.Err()` before the call
  pub context_error : ℕ → Option Error

-- The outcome, and how often the observer is told of a page
pub record Outcome (R : Type 0) : Type 0 where
  pub result : Result (List R)
  pub observed : ℕ

-- NewUsagePaginatorForTarget: the limit of the paginator
unfoldable pub new_usage_paginator : ℤ → Result ℕ
new_usage_paginator max_pages = do
  fail_if (leb_ℤ max_pages (pos 0)) invalid_page_limit
  ok (pos_part max_pages)

-- The first token of a request is seen if it is not empty.
abbrev pub first_seen : Text → List Text
first_seen token = if is_empty token then [] else token ∷ []

module _ {R : Type 0} (api : Api R) (max_pages : ℕ) where
  abbrev fails : Error → ℕ → Option (Outcome R)
  fails e observed = some (record { result = err e; observed = observed })

  -- The loop of `Read`, which has no bound of its own, on fuel
  unfoldable pub read_loop : ℕ → ℕ → Text → List Text → List R → ℕ → Option (Outcome R)
  read_loop zero number token seen results observed = none
  read_loop (suc fuel) number token seen results observed = elim (api.context_error number) [
    | some e ↦ fails e observed
    | none ↦
        if ltb max_pages number
        then fails page_limit_exceeded observed
        else elim (api.answer number token) [
          | failed e ↦ fails e observed
          | no_page ↦ fails invalid_page observed
          | page p ↦
              let next =
                read_loop fuel (suc number) p.token (p.token ∷ seen) (results ++ p.results)
                  (suc observed) in
              if is_empty p.token
              then some (record { result = ok (results ++ p.results); observed = suc observed })
              else if contains seen p.token
              then fails duplicate_page_token (suc observed)
              else next
        ]
  ]

  -- `Read`, for an input that is not nil
  unfoldable pub read : Text → Option (Outcome R)
  unfolding read_loop
  read token = read_loop (suc max_pages) 1 token (first_seen token) [] 0
