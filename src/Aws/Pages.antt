-- ===== src/Aws/Pages.antt =====
-- What UsagePaginator.Read returns, against the chain of pages that the API has for a request.
use aws_cost_exporter.Base.{
  ℕ, zero, suc, ◌+◌, ◌≤◌, ◌≡◌, refl, ap, ◌∙◌, true, false, List, [], ◌∷◌, ◌++◌, length,
  if◌then◌else◌, ltb, Option, none, some, arith, Bool-cases, Option-cases, inl, inr,
}
use mathlib.Core.List.{append_assoc}
use aws_cost_exporter.Base.Text.{Text, is_empty}
use aws_cost_exporter.Errors.{ok, err, invalid_page, duplicate_page_token}
use aws_cost_exporter.Snapshot.Validate.{contains}
use aws_cost_exporter.Snapshot.Labels.{Fresh}
use aws_cost_exporter.Aws.Pagination.{
  Page, Answer, page, no_page, failed, Api, Outcome, first_seen, read_loop, read,
}

module _ {R : Type 0} (api : Api R) where
  -- The pages from a call on: each but the last has a token for the next.
  pub data Chain : ℕ → Text → List Text → List R → Type 0 where
    last :
        {number : ℕ} {token : Text} (p : Page R)
        → api.answer number token ≡ page p
        → is_empty p.token ≡ true
        → Chain number token [] p.results
    more :
        {number : ℕ} {token : Text} {tokens : List Text} {results : List R} (p : Page R)
        → api.answer number token ≡ page p
        → is_empty p.token ≡ false
        → Chain (suc number) p.token tokens results
        → Chain number token (p.token ∷ tokens) (p.results ++ results)

  abbrev pub complete : List R → ℕ → Option (Outcome R)
  complete results observed = some (record { result = ok results; observed = suc observed })

  joined : (a b : List R) (m n : ℕ) → a ≡ b → m ≡ n → complete a m ≡ complete b n
  joined a b m n p q = ap (λ l. complete l m) p ∙ ap (complete b) q

  module _ (max_pages : ℕ) where
    -- Enough fuel: the loop ends at the latest when the number is past the limit.
    read_loop-ends :
        (fuel number : ℕ) (token : Text) (seen : List Text) (results : List R) (observed : ℕ)
        → fuel + number ≡ max_pages + 2
        → number ≤ max_pages + 1
        → (o : Outcome R) × (read_loop api max_pages fuel number token seen results observed
            ≡ some o)
    unfolding read_loop
    read_loop-ends zero number token seen results observed h k = absurd (omega arith)
    read_loop-ends (suc fuel) number token seen results observed h k =
        elim (Option-cases (api.context_error number)) [
          | inr (e, c) ↦ rw (c, read_loop) (_, refl)
          | inl c ↦ elim (Bool-cases (ltb max_pages number)) [
            | inl b ↦ rw (c, read_loop) (rw b (_, refl))
            | inr b ↦
                rw (c, read_loop)
                  (rw b (
                    answered (api.answer number token) (λ p.
                      read_loop-ends fuel (suc number) p.token (p.token ∷ seen)
                        (results ++ p.results) (suc observed) (omega (arith, h))
                        (ground (arith, b)))))
          ]
        ]
      where
        answered :
            (a : Answer R)
            → ((p : Page R)
                → (o : Outcome R) × (read_loop api max_pages fuel
                      (suc number)
                      p.token
                      (p.token ∷ seen)
                      (results ++ p.results)
                      (suc observed)
                    ≡ some o))
            → (o : Outcome R) × (elim a as (λ _. Option (Outcome R)) [
              | failed e ↦ some (record { result = err e; observed = observed })
              | no_page ↦ some (record { result = err invalid_page; observed = observed })
              | page p ↦
                  if is_empty p.token
                  then some (record { result = ok (results ++ p.results); observed = suc observed })
                  else if contains seen p.token
                  then some (record { result = err duplicate_page_token; observed = suc observed })
                  else read_loop api max_pages fuel
                      (suc number)
                      p.token
                      (p.token ∷ seen)
                      (results ++ p.results)
                      (suc observed)
            ]
                ≡ some o)
        answered (failed e) b = (_, refl)
        answered no_page b = (_, refl)
        answered (page p) b = elim (Bool-cases (is_empty p.token)) [
          | inl l ↦ rw l (_, refl)
          | inr l ↦ elim (Bool-cases (contains seen p.token)) [
            | inl d ↦ rw l (rw d (_, refl))
            | inr d ↦ rw l (rw d (b p))
          ]
        ]

    -- A chain of pages whose tokens are new, within the limit, is read to its end.
    read_loop-Chain :
        (fuel number : ℕ) (token : Text) (tokens : List Text) (pages : List R) (seen : List Text)
        (results : List R) (observed : ℕ)
        → Chain number token tokens pages
        → Fresh seen tokens
        → fuel + number ≡ max_pages + 2
        → number + length tokens ≤ max_pages
        → ((n : ℕ) → api.context_error n ≡ none)
        → read_loop api max_pages fuel number token seen results observed
          ≡ complete (results ++ pages) (observed + length tokens)
    unfolding read_loop
    read_loop-Chain zero number token tokens pages seen results observed (last p a l) f h k c =
        absurd (omega arith)
    read_loop-Chain (suc fuel) number token tokens pages seen results observed (last p a l) f h k
          c =
        let within : ltb max_pages number ≡ false = ground (arith, k) in
        rw (c number, read_loop)
          (rw within (rw a (rw l (ap (complete (results ++ p.results)) (omega arith)))))
    read_loop-Chain zero number token tokens pages seen results observed (more p a l rest) f h k c =
        absurd (omega arith)
    read_loop-Chain (suc fuel) number token tokens pages seen results observed
          (more {tokens = ts} {results = rs} p a l rest) f h k c =
        let within : ltb max_pages number ≡ false = ground (arith, k) in
        rw (c number, read_loop)
          (rw within (
            rw a (
              rw l (
                rw f.0 (
                  read_loop-Chain fuel (suc number) p.token ts rs (p.token ∷ seen)
                    (results ++ p.results) (suc observed) rest f.1 (omega (arith, h))
                    (omega (arith, k)) c
                  ∙ joined _ _ _ _ (append_assoc results p.results rs) (omega arith))))))

-- Read ends with an outcome, whatever the API answers and whatever the limit of pages is.
pub read-ends :
    {R : Type 0} (api : Api R) (max_pages : ℕ) (token : Text)
    → (o : Outcome R) × (read api max_pages token ≡ some o)
unfolding read
read-ends api max_pages token =
    read_loop-ends api max_pages (suc max_pages) 1 token (first_seen token) [] 0 (omega arith)
      (omega arith)

-- When the pages of a request are no more than the limit, no token comes twice, the first token
-- included, and the context is not canceled, Read returns the results of all the pages in order, and
-- tells the observer of each page once.
pub read-Chain :
    {R : Type 0} (api : Api R) (max_pages : ℕ) (token : Text) (tokens : List Text) (pages : List R)
    → Chain api 1 token tokens pages
    → Fresh (first_seen token) tokens
    → 1 + length tokens ≤ max_pages
    → ((n : ℕ) → api.context_error n ≡ none)
    → read api max_pages token ≡ some (record { result = ok pages; observed = 1 + length tokens })
unfolding read
read-Chain api max_pages token tokens pages chain fresh few alive =
    read_loop-Chain api max_pages (suc max_pages) 1 token tokens pages (first_seen token) [] 0 chain
      fresh (omega arith) few alive
    ∙ ap (λ n. some (record { result = ok pages; observed = n })) (omega arith)
