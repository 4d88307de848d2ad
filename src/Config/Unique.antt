-- ===== src/Config/Unique.antt =====
-- What validateUniqueStrings accepts.
use aws_cost_exporter.Base.{
  ℕ, suc, ◌≡◌, ◌↔◌, refl, Bool, true, false, not, List, [], ◌∷◌, All, arith,
}
use aws_cost_exporter.Base.Text.{Text, text_same}
use aws_cost_exporter.Errors.{ok, check_passed}
use aws_cost_exporter.Snapshot.Validate.{contains}
use aws_cost_exporter.Snapshot.Labels.{Fresh, Distinct, Fresh-iff, Apart-nil}
use aws_cost_exporter.Config.Strings.{unique_strings, validate_unique_strings, untrimmed}

module _ (path : Text) (pattern : Text → Bool) where
  -- A value that the loop lets through on its own
  abbrev pub Accepted : Text → Type 0
  Accepted value = (untrimmed value ≡ false) × (pattern value ≡ true)

  matched : (b : Bool) → not b ≡ false → b ≡ true
  matched b h = ground arith

  unique_strings-ok :
      (index : ℕ) (values seen : List Text)
      → unique_strings path pattern index values seen ≡ ok tt
      → All Accepted values × Fresh seen values
  unfolding unique_strings
  unique_strings-ok index [] seen h = (tt, tt)
  unique_strings-ok index (v ∷ vs) seen h =
      let (trimmed, h1) = check_passed (untrimmed v) _ _ h in
      let (match, h2) = check_passed (not (pattern v)) _ _ h1 in
      let (new, h3) = check_passed (contains seen v) _ _ h2 in
      let rest = unique_strings-ok (suc index) vs (v ∷ seen) h3 in
      (((trimmed, matched (pattern v) match), rest.0), (new, rest.1))

  unique_strings_ok :
      (index : ℕ) (values seen : List Text)
      → All Accepted values
      → Fresh seen values
      → unique_strings path pattern index values seen ≡ ok tt
  unfolding unique_strings
  unique_strings_ok index [] seen a f = refl
  unique_strings_ok index (v ∷ vs) seen a f =
      rw a.0.0 (rw a.0.1 (rw f.0 (unique_strings_ok (suc index) vs (v ∷ seen) a.1 f.1)))

-- A list of strings is accepted exactly when each is trimmed, not empty and matches the pattern, and
-- none comes twice.
validate_unique_strings_iff :
    (path : Text) (values : List Text) (pattern : Text → Bool)
    → (validate_unique_strings path values pattern ≡ ok tt)
      ↔ (All (λ v. (untrimmed v ≡ false) × (pattern v ≡ true)) values × Distinct values)
unfolding validate_unique_strings
validate_unique_strings_iff path values pattern = (
  λ h.
      let (each, fresh) = unique_strings-ok path pattern 0 values [] h in
      (each, ((Fresh-iff [] values).0 fresh).0),
  λ h.
      unique_strings_ok path pattern 0 values [] h.0
        ((Fresh-iff [] values).1 (h.1, Apart-nil values)),
)
