-- ===== src/Config/Strings.antt =====
-- validateUniqueStrings of internal/config/validation.go, and the paths of its messages.
use aws_cost_exporter.Base.{
  ℕ, zero, suc, ◌+◌, ◌/◌, ◌%◌, ltb, Bool, true, ◌||◌, not, List, [], ◌∷◌, ◌++◌, if◌then◌else◌, ◌=?◌,
}
use aws_cost_exporter.Base.Text.{Text, text, text_same, is_empty, trim_space}
use aws_cost_exporter.Errors.{Result, ok, ◌>>◌, fail_if, Error, invalid_config}
use aws_cost_exporter.Snapshot.Validate.{contains}

-- `%d`, on fuel that counts digits
abbrev digits : ℕ → ℕ → Text
digits zero n = []
digits (suc fuel) n =
    let rest = digits fuel (n / 10) in
    if ltb n 10 then (b'0' + n) ∷ [] else rest ++ (b'0' + n % 10) ∷ []

-- Every index is below 2 ^ 63, which has 19 digits.
abbrev pub decimal : ℕ → Text
decimal = digits 20

abbrev pub at_index : Text → ℕ → Text
at_index path index = path ++ text "[" ++ decimal index ++ text "]"

abbrev pub at : Text → Error
at path = invalid_config path

-- `value == "" || value != strings.TrimSpace(value)`
abbrev pub untrimmed : Text → Bool
untrimmed value = is_empty value || not (value =? trim_space value)

-- A missing pattern is the test that every text passes.
abbrev pub any_text : Text → Bool
any_text value = true

-- The loop of `validateUniqueStrings`
unfoldable pub unique_strings : Text → (Text → Bool) → ℕ → List Text → List Text → Result (Unit {0})
unique_strings path pattern index [] seen = ok tt
unique_strings path pattern index (value ∷ values) seen = do
  fail_if (untrimmed value) (at (at_index path index))
  fail_if (not (pattern value)) (at (at_index path index))
  fail_if (contains seen value) (at (at_index path index))
  unique_strings path pattern (suc index) values (value ∷ seen)

-- `validateUniqueStrings`
unfoldable pub validate_unique_strings : Text → List Text → (Text → Bool) → Result (Unit {0})
validate_unique_strings path values pattern = unique_strings path pattern 0 values []
