-- ===== src/Config/Patterns.antt =====
-- The regular expressions of internal/config/validation.go, as functions on texts. All are anchored
-- at both ends, so that each is a test of the whole text.
use aws_cost_exporter.Base.{
  ℕ, ◌==◌, Bool, true, false, ◌&&◌, ◌||◌, not, List, [], ◌∷◌, if◌then◌else◌, leb, length, every,
  take, drop, Option, none, some,
}
use aws_cost_exporter.Base.Text.{Text, text, text_same, is_empty}

abbrev pub digit : ℕ → Bool
digit c = leb b'0' c && leb c b'9'

abbrev pub lower : ℕ → Bool
lower c = leb b'a' c && leb c b'z'

abbrev pub upper : ℕ → Bool
upper c = leb b'A' c && leb c b'Z'

abbrev pub letter : ℕ → Bool
letter c = lower c || upper c

abbrev pub member : ℕ → Text → Bool
member c [] = false
member c (d ∷ s) = c == d || member c s

-- `s` after a prefix
abbrev pub after_prefix : Text → Text → Option Text
after_prefix [] s = some s
after_prefix (c ∷ p) [] = none
after_prefix (c ∷ p) (d ∷ s) = if c == d then after_prefix p s else none

-- `strings.HasPrefix`
abbrev pub has_prefix : Text → Text → Bool
has_prefix s p = elim (after_prefix p s) [ none ↦ false | some _ ↦ true ]

-- `strings.Contains`
unfoldable pub contains_text : Text → Text → Bool
contains_text [] p = is_empty p
contains_text (c ∷ s) p = has_prefix (c ∷ s) p || contains_text s p

-- `^[a-z][a-z0-9_-]{0,31}$`
unfoldable pub target_name : Text → Bool
target_name [] = false
target_name (c ∷ s) =
    lower c && leb (length s) 31 && every (λ d. lower d || digit d || member d (text "_-")) s

-- `^[0-9]{12}$`
unfoldable pub account_id_pattern : Text → Bool
account_id_pattern s = length s == 12 && every digit s

-- What follows the partition of `arn:(aws|aws-us-gov|aws-cn):iam::([0-9]{12}):role/…`: the account.
unfoldable pub role_account : Text → Option Text
unfolding account_id_pattern
role_account s =
    let account = take 12 s in
    elim (after_prefix (text ":role/") (drop 12 s)) [
      | none ↦ none
      | some role ↦
          if account_id_pattern account
            && leb 1 (length role)
            && leb (length role) 512
            && every (λ c. letter c || digit c || member c (text "+=,.@_/-")) role
          then some account
          else none
    ]

abbrev pub first_of : Option Text → Option Text → Option Text
first_of (some a) b = some a
first_of none b = b

abbrev pub and_then : Option Text → (Text → Option Text) → Option Text
and_then none f = none
and_then (some a) f = f a

-- The account that `roleARNPattern` captures, if it matches. The three partitions end in a colon, so
-- that at most one of them matches.
unfoldable pub role_arn_pattern : Text → Option Text
role_arn_pattern s = first_of (and_then (after_prefix (text "arn:aws:iam::") s) role_account) (
    first_of (and_then (after_prefix (text "arn:aws-us-gov:iam::") s) role_account)
      (and_then (after_prefix (text "arn:aws-cn:iam::") s) role_account))

-- `^[A-Za-z_][A-Za-z0-9_]*$`
unfoldable pub environment_pattern : Text → Bool
environment_pattern [] = false
environment_pattern (c ∷ s) =
    (letter c || c == b'_') && every (λ d. letter d || digit d || d == b'_') s

-- `^[A-Za-z0-9+=,.@_-]{2,64}$`
unfoldable pub session_name_pattern : Text → Bool
session_name_pattern s =
    leb 2 (length s)
    && leb (length s) 64
    && every (λ c. letter c || digit c || member c (text "+=,.@_-")) s

-- `^[A-Za-z_][A-Za-z0-9_]{0,127}$`
unfoldable pub sql_identifier : Text → Bool
unfolding environment_pattern
sql_identifier s = environment_pattern s && leb (length s) 128

-- `^[A-Za-z0-9._-]{1,128}$`
unfoldable pub workgroup_pattern : Text → Bool
workgroup_pattern s =
    leb 1 (length s)
    && leb (length s) 128
    && every (λ c. letter c || digit c || member c (text "._-")) s

abbrev last_of : ℕ → Text → ℕ
last_of c [] = c
last_of c (d ∷ s) = last_of d s

-- `^[a-z0-9][a-z0-9.-]{1,61}[a-z0-9]$`
unfoldable pub s3_bucket : Text → Bool
s3_bucket [] = false
s3_bucket (c ∷ s) =
    (lower c || digit c)
    && leb 2 (length s)
    && leb (length s) 62
    && every (λ d. lower d || digit d || member d (text ".-")) s
    && (lower (last_of c s) || digit (last_of c s))

-- The pieces of a text between its hyphens.
abbrev add_to_first : ℕ → List Text → List Text
add_to_first c [] = (c ∷ []) ∷ []
add_to_first c (w ∷ ws) = (c ∷ w) ∷ ws

abbrev hyphened : Text → List Text
hyphened [] = [] ∷ []
hyphened (c ∷ s) = if c == b'-' then [] ∷ hyphened s else add_to_first c (hyphened s)

-- `([a-z0-9]+-)+[0-9]+$`, in pieces
abbrev region_tail : List Text → Bool
region_tail [] = false
region_tail (w ∷ []) = not (is_empty w) && every digit w
region_tail (w ∷ v ∷ ws) =
    not (is_empty w) && every (λ c. lower c || digit c) w && region_tail (v ∷ ws)

abbrev region_pieces : List Text → Bool
region_pieces (w ∷ u ∷ v ∷ ws) = length w == 2 && every lower w && region_tail (u ∷ v ∷ ws)
region_pieces _ = false

-- `^[a-z]{2}(-[a-z0-9]+)+-[0-9]+$`
unfoldable pub aws_region : Text → Bool
aws_region s = region_pieces (hyphened s)
