-- ===== src/Base/Text.antt =====
-- Text operations of Go's standard library that the program uses.
use Prim.Native.Char.{code}
use Prim.Native.String.{[], ◌∷◌, ◌++◌}
use text.Mathlib.TextLemmas.{nil-append, cons-append}
use heyfil.Base.{
  ltb, if◌then◌else◌, ◌==◌, nat_eq, string_eq, ==_refl, ℕ, zero, suc, ◌/◌, ◌%◌, String, ◌≡◌, refl,
  ap, ◌≢◌, Option, none, some, List, arith, ℕ_discrete,
}

-- The rest of the second text behind the first, if it begins so.
unfoldable pub strip_prefix : String → String → Option String
strip_prefix [] s = some s
strip_prefix (c ∷ p) [] = none
strip_prefix (c ∷ p) (d ∷ s) = if code c == code d then strip_prefix p s else none

-- `strings.TrimPrefix(s, prefix)`
unfoldable pub trim_prefix : String → String → String
trim_prefix s prefix = elim (strip_prefix prefix s) [ none ↦ s | some rest ↦ rest ]

digit : ℕ → String
digit zero = "0"
digit (suc zero) = "1"
digit (suc (suc zero)) = "2"
digit (suc (suc (suc zero))) = "3"
digit (suc (suc (suc (suc zero)))) = "4"
digit (suc (suc (suc (suc (suc zero))))) = "5"
digit (suc (suc (suc (suc (suc (suc zero)))))) = "6"
digit (suc (suc (suc (suc (suc (suc (suc zero))))))) = "7"
digit (suc (suc (suc (suc (suc (suc (suc (suc zero)))))))) = "8"
digit _ = "9"

digits_from : ℕ → ℕ → String → String
digits_from zero n out = out
digits_from (suc fuel) n out =
    let more = digits_from fuel (n / 10) (digit (n % 10) ++ out) in
    if ltb n 10 then digit n ++ out else more

-- `%d` and `strconv.Itoa` of a number that is not negative; each round takes a digit off, so that
-- a number has fewer digits than its own value plus one.
unfoldable pub itoa : ℕ → String
unfolding digits_from digit
itoa n = digits_from (suc n) n ""

-- The text before the first slash, and the text behind it if there is one.
unfoldable pub cut_slash : String → String × Option String
cut_slash [] = ("", none)
cut_slash (c ∷ s) =
    let (before, after) = cut_slash s in
    if code c == b'/' then ("", some s) else (c ∷ before, after)

-- `strings.SplitN(s, "/", n)` for a positive n
unfoldable pub split_n : ℕ → String → List String
split_n zero s = List.[]
split_n (suc zero) s = List.◌∷◌ s List.[]
split_n (suc (suc n)) s = elim (cut_slash s).1 [
  | none ↦ List.◌∷◌ s List.[]
  | some rest ↦ List.◌∷◌ (cut_slash s).0 (split_n (suc n) rest)
]

-- `strings.Join(parts, ",")`
unfoldable pub join_comma : List String → String
join_comma List.[] = ""
join_comma (List.◌∷◌ a List.[]) = a
join_comma (List.◌∷◌ a (List.◌∷◌ b rest)) = a ++ "," ++ join_comma (List.◌∷◌ b rest)

-- A text without slashes.
abbrev pub NoSlash : String → Type 0
NoSlash [] = Unit
NoSlash (c ∷ s) = (code c ≢ b'/') × NoSlash s

pub strip_prefix-append : (p s : String) → strip_prefix p (p ++ s) ≡ some s
unfolding strip_prefix
strip_prefix-append [] s = rw nil-append
strip_prefix-append (c ∷ p) s = rw (cons-append, ==_refl) (strip_prefix-append p s)

pub trim_prefix-append : (p s : String) → trim_prefix (p ++ s) p ≡ s
unfolding trim_prefix
trim_prefix-append p s = rw (strip_prefix-append p s, trim_prefix)

cut_slash-slash : (b : String) → cut_slash ("/" ++ b) ≡ ("", some b)
unfolding cut_slash ℕ_discrete
cut_slash-slash b = rw (cons-append, nil-append)

cut_slash-append : (a b : String) → NoSlash a → cut_slash (a ++ "/" ++ b) ≡ (a, some b)
unfolding cut_slash
cut_slash-append [] b _ = rw nil-append (cut_slash-slash b)
cut_slash-append (c ∷ a) b (n, h) = rw (cons-append, cut_slash-append a b h) (ground arith)

cut_slash_of_NoSlash : (a : String) → NoSlash a → cut_slash a ≡ (a, none)
unfolding cut_slash
cut_slash_of_NoSlash [] _ = refl
cut_slash_of_NoSlash (c ∷ a) (n, h) = rw (cut_slash_of_NoSlash a h) (ground arith)

-- One segment, and two, are split as they were joined.
pub split_n_one : (n : ℕ) (a : String) → NoSlash a → split_n (suc (suc n)) a ≡ List.◌∷◌ a List.[]
unfolding split_n
split_n_one n a h = rw (cut_slash_of_NoSlash a h, split_n)

pub split_n_two :
    (n : ℕ) (a b : String)
    → NoSlash a
    → NoSlash b
    → split_n (suc (suc (suc n))) (a ++ "/" ++ b) ≡ List.◌∷◌ a (List.◌∷◌ b List.[])
unfolding split_n
split_n_two n a b h k =
    rw (cut_slash-append a b h, split_n)
      (rw (cut_slash-append a b h) (ap (List.◌∷◌ a) (split_n_one n b k)))
