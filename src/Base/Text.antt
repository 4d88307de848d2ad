-- ===== src/Base/Text.antt =====
-- Go strings as lists of code points. Go compares bytes; on the UTF-8 encoding of valid texts that
-- is the order of the code points.
use Prim.Native.Char.{code}
use Prim.Native.String.{String}
use aws_cost_exporter.Base.Tests.{Bool-cases, if◌then◌else◌, Eq, ◌=?◌, ltb, leb, ◌==◌, nat_eq}
use aws_cost_exporter.Base.Keys.{
  IsStrictOrder, ltb-IsStrictOrder, list_same, list_same_iff, lex_lt, lex_lt-IsStrictOrder,
}
use aws_cost_exporter.Base.Lists.{All}
use Prim.Native.Nat.{ℕ, ◌+◌}
use mathlib.Core.Bool.{not, true, false, Bool, ◌&&◌, ◌||◌}
use mathlib.Core.Path.{◌≡◌, refl, ap, ◌∙◌}
use mathlib.Core.Logic.{inl, inr}
use native.Mathlib.Omega.{arith}
use mathlib.Core.List.{List, [], ◌∷◌}

abbrev pub Text : Type 0
Text = List ℕ

-- A literal of the source.
abbrev pub text : String → Text
text String.[] = []
text (String.◌∷◌ c s) = code c ∷ text s

instance abbrev pub text_same : Eq Text
text_same = record { same = list_same; same_iff = list_same_iff }

-- `a < b` on strings.
unfoldable pub text_lt : Text → Text → Bool
unfolding lex_lt
text_lt = lex_lt ltb

pub text_lt-IsStrictOrder : IsStrictOrder text_lt
unfolding text_lt
text_lt-IsStrictOrder = lex_lt-IsStrictOrder ltb ltb-IsStrictOrder

-- Lists of texts, compared field by field.
unfoldable pub key_lt : List Text → List Text → Bool
unfolding lex_lt
key_lt = lex_lt text_lt

pub key_lt-IsStrictOrder : IsStrictOrder key_lt
unfolding key_lt
key_lt-IsStrictOrder = lex_lt-IsStrictOrder text_lt text_lt-IsStrictOrder

instance abbrev pub key_same : Eq (List Text)
key_same = record { same = list_same; same_iff = list_same_iff }

-- `unicode.IsSpace`
unfoldable pub is_space : ℕ → Bool
is_space c =
    (leb 9 c && leb c 13)
    || c == 32
    || c == 0x85
    || c == 0xa0
    || c == 0x1680
    || (leb 0x2000 c && leb c 0x200a)
    || c == 0x2028
    || c == 0x2029
    || c == 0x202f
    || c == 0x205f
    || c == 0x3000

trim_left : Text → Text
trim_left [] = []
trim_left (c ∷ s) = if is_space c then trim_left s else c ∷ s

keep_before : ℕ → Text → Text
keep_before c [] = if is_space c then [] else c ∷ []
keep_before c (d ∷ s) = c ∷ d ∷ s

trim_right : Text → Text
unfolding keep_before
trim_right [] = []
trim_right (c ∷ s) = keep_before c (trim_right s)

-- `strings.TrimSpace`
unfoldable pub trim_space : Text → Text
unfolding trim_left trim_right is_space
trim_space s = trim_right (trim_left s)

abbrev pub is_empty : Text → Bool
is_empty [] = true
is_empty (_ ∷ _) = false

abbrev StartsInked : Text → Type 0
StartsInked [] = Unit
StartsInked (c ∷ s) = is_space c ≡ false

trim_left-StartsInked : (s : Text) → StartsInked (trim_left s)
unfolding trim_left
trim_left-StartsInked [] = tt
trim_left-StartsInked (c ∷ s) = elim (Bool-cases (is_space c)) [
  | inl e ↦ rw e (trim_left-StartsInked s)
  | inr e ↦ rw e e
]

trim_left-inked : (s : Text) → StartsInked s → trim_left s ≡ s
unfolding trim_left
trim_left-inked [] h = refl
trim_left-inked (c ∷ s) h = rw h refl

keep_before-inked : (c : ℕ) (s : Text) → is_space c ≡ false → StartsInked (keep_before c s)
unfolding keep_before
keep_before-inked c [] h = rw h h
keep_before-inked c (d ∷ s) h = h

trim_right-StartsInked : (s : Text) → StartsInked s → StartsInked (trim_right s)
unfolding trim_right
trim_right-StartsInked [] h = tt
trim_right-StartsInked (c ∷ s) h = keep_before-inked c (trim_right s) h

trim_right-keep_before :
    (c : ℕ) (s : Text) → trim_right s ≡ s → trim_right (keep_before c s) ≡ keep_before c s
unfolding trim_right
trim_right-keep_before c [] h = elim (Bool-cases (is_space c)) [
  | inl e ↦ rw e refl
  | inr e ↦ rw e (rw e refl)
]
trim_right-keep_before c (d ∷ s) h = rw (h, keep_before)

trim_right_idem : (s : Text) → trim_right (trim_right s) ≡ trim_right s
unfolding trim_right
trim_right_idem [] = refl
trim_right_idem (c ∷ s) = trim_right-keep_before c (trim_right s) (trim_right_idem s)

-- A trimmed text stays as it is.
pub trim_space_idem : (s : Text) → trim_space (trim_space s) ≡ trim_space s
unfolding trim_space
trim_space_idem s =
    ap trim_right (
      trim_left-inked (trim_right (trim_left s))
        (trim_right-StartsInked (trim_left s) (trim_left-StartsInked s)))
    ∙ trim_right_idem (trim_left s)

trim_left_inked : (s : Text) → All (λ c. is_space c ≡ false) s → trim_left s ≡ s
unfolding trim_left
trim_left_inked [] h = refl
trim_left_inked (c ∷ s) h = rw h.0 refl

keep_before_inked : (c : ℕ) (s : Text) → is_space c ≡ false → keep_before c s ≡ c ∷ s
unfolding keep_before
keep_before_inked c [] h = rw h refl
keep_before_inked c (d ∷ s) h = refl

trim_right_inked : (s : Text) → All (λ c. is_space c ≡ false) s → trim_right s ≡ s
unfolding trim_right
trim_right_inked [] h = refl
trim_right_inked (c ∷ s) h = rw (trim_right_inked s h.1) (keep_before_inked c s h.0)

-- A text without white space is trimmed.
pub trim_space_inked : (s : Text) → All (λ c. is_space c ≡ false) s → trim_space s ≡ s
unfolding trim_space
trim_space_inked s h = ap trim_right (trim_left_inked s h) ∙ trim_right_inked s h

-- `len` counts the bytes of the UTF-8 encoding.
unfoldable pub byte_length : Text → ℕ
byte_length [] = 0
byte_length (c ∷ s) =
    (if ltb c 0x80 then 1 else if ltb c 0x800 then 2 else if ltb c 0x10000 then 3 else 4)
    + byte_length s

-- How one field of a record is compared, as the comparisons of the source write it.
pub key_lt-text :
    (a b : Text) (rest more : List Text)
    → key_lt (a ∷ rest) (b ∷ more) ≡ (if not (a =? b) then text_lt a b else key_lt rest more)
unfolding key_lt
key_lt-text a b rest more = ground arith

pub key_lt-number :
    (a b : ℕ) (rest more : List Text)
    → key_lt ((a ∷ []) ∷ rest) ((b ∷ []) ∷ more)
      ≡ (if not (a == b) then ltb a b else key_lt rest more)
unfolding key_lt text_lt list_same
key_lt-number a b rest more = ground arith

pub key_lt_last : (a b : Text) → key_lt (a ∷ []) (b ∷ []) ≡ text_lt a b
unfolding key_lt
key_lt_last a b = ground (arith, text_same.same_iff a b, text_lt-IsStrictOrder.irrefl a)

pub key_lt_last_number : (a b : ℕ) → key_lt ((a ∷ []) ∷ []) ((b ∷ []) ∷ []) ≡ ltb a b
unfolding key_lt text_lt list_same
key_lt_last_number a b = ground arith
