-- ===== src/Base/Number.antt =====
-- Decimal numbers read from text, as `strconv.ParseInt` and `big.Int.SetString` do at base 10.
use Prim.Native.Char.{Char, code}
use Prim.Native.String.{[], ◌∷◌}
use mathlib.Core.Option
use heyfil.Base.{
  ltb, leb, if◌then◌else◌, ◌==◌, nat_eq, string_eq, ℕ, ◌+◌, ◌-◌, ◌*◌, ◌^◌, String, ◌≡◌, refl, Bool,
  ◌&&◌, Option, none, some, ℕ_discrete,
}
use heyfil.Base.Int.{ℤ, pos, sub_ℕ, neg_part, pos_part}

unfoldable pub is_digit : Char → Bool
is_digit c = leb b'0' (code c) && leb (code c) b'9'

unfoldable pub digits : ℕ → String → Option ℕ
unfolding is_digit
digits n [] = some n
digits n (c ∷ s) =
    let more = digits (n * 10 + (code c - b'0')) s in if is_digit c then more else none

-- One digit at least.
unfoldable pub natural : String → Option ℕ
unfolding digits
natural [] = none
natural (c ∷ s) = digits 0 (c ∷ s)

-- A sign may stand in front.
unfoldable pub signed : String → Option ℤ
unfolding natural
signed [] = none
signed (c ∷ s) =
    if code c == b'-'
    then Option.map (λ n. sub_ℕ 0 n) (natural s)
    else if code c == b'+'
    then Option.map pos (natural s)
    else Option.map pos (natural (c ∷ s))

-- `strconv.ParseInt(s, 10, 32)`, with `none` for an error of syntax or of range
unfoldable pub parse_int32 : String → Option ℤ
unfolding signed
parse_int32 s = elim (signed s) [
  | none ↦ none
  | some z ↦ if ltb (pos_part z) (2 ^ 31) && leb (neg_part z) (2 ^ 31) then some z else none
]

parse_tests :
    (parse_int32 "14" ≡ some (pos 14))
    × (parse_int32 "-1" ≡ some (sub_ℕ 0 1))
    × (parse_int32 "" ≡ none)
    × (parse_int32 "2147483648" ≡ none)
    × (parse_int32 "1a" ≡ none)
    × (parse_int32 "!1" ≡ none)
unfolding parse_int32 ℕ_discrete
parse_tests = (refl, refl, refl, refl, refl, refl)
