-- ===== src/Base/Int.antt =====
-- Signed integers over the native numbers, and Go's `int64` arithmetic on them.
use Prim.Native.Nat.{ℕ, suc, ◌+◌, ◌-◌, ◌%◌, ◌^◌, ◌≤◌, ◌<◌}
use mathlib.Core.Path.{◌≡◌, refl, ap}
use mathlib.Core.Bool.{Bool}
use mathlib.Core.Logic.{dite}
use native.Mathlib.Decide.{ℕ_discrete}
use native.Mathlib.Omega.{arith}
use heyfil.Base.Tests.{ltb, leb, if◌then◌else◌}
use heyfil.Base.Equality.{Eq}

-- `negsuc n` is -(n + 1).
pub data ℤ : Type 0 where
  pos : ℕ → ℤ
  negsuc : ℕ → ℤ

abbrev pub pos_part : ℤ → ℕ
pos_part (pos n) = n
pos_part (negsuc n) = 0

abbrev pub neg_part : ℤ → ℕ
neg_part (pos n) = 0
neg_part (negsuc n) = suc n

-- a - b, as an integer.
abbrev pub sub_ℕ : ℕ → ℕ → ℤ
sub_ℕ a b = if leb b a then pos (a - b) else negsuc (b - a - 1)

infixl 65 ◌+ℤ◌ ◌-ℤ◌
infix 50 ◌≤ℤ◌ ◌<ℤ◌
unfoldable pub ◌+ℤ◌ : ℤ → ℤ → ℤ
a +ℤ b = sub_ℕ (pos_part a + pos_part b) (neg_part a + neg_part b)

unfoldable pub ◌-ℤ◌ : ℤ → ℤ → ℤ
a -ℤ b = sub_ℕ (pos_part a + neg_part b) (neg_part a + pos_part b)

abbrev pub ◌≤ℤ◌ : ℤ → ℤ → Type 0
a ≤ℤ b = pos_part a + neg_part b ≤ pos_part b + neg_part a

abbrev pub ◌<ℤ◌ : ℤ → ℤ → Type 0
a <ℤ b = pos_part a + neg_part b < pos_part b + neg_part a

-- a < b
abbrev pub ltb_ℤ : ℤ → ℤ → Bool
ltb_ℤ a b = ltb (pos_part a + neg_part b) (pos_part b + neg_part a)

pub pos-ne-negsuc : (a b : ℕ) → pos a ≡ negsuc b → ⊥
pos-ne-negsuc a b e = cc

pub negsuc-ne-pos : (a b : ℕ) → negsuc a ≡ pos b → ⊥
negsuc-ne-pos a b e = cc

pub negsuc_injective : (a b : ℕ) → negsuc a ≡ negsuc b → a ≡ b
negsuc_injective a b e = cc

unfoldable pub int_dec : Discrete ℤ
int_dec (pos a) (pos b) =
    dite (ℕ_discrete a b) (λ p. yes (ap pos p)) (λ n. no (λ e. n (ap pos_part e)))
int_dec (pos a) (negsuc b) = no (pos-ne-negsuc a b)
int_dec (negsuc a) (pos b) = no (negsuc-ne-pos a b)
int_dec (negsuc a) (negsuc b) =
    dite (ℕ_discrete a b) (λ p. yes (ap negsuc p)) (λ n. no (λ e. n (negsuc_injective a b e)))

instance abbrev pub int_eq : Eq ℤ
int_eq = record { dec = int_dec }

-- The value that 64 bits of two's complement keep of an integer.
unfoldable pub wrap64 : ℤ → ℤ
wrap64 (pos n) = let r = n % 2 ^ 64 in if ltb r (2 ^ 63) then pos r else negsuc (2 ^ 64 - 1 - r)
wrap64 (negsuc n) = let r = n % 2 ^ 64 in if ltb r (2 ^ 63) then negsuc r else pos (2 ^ 64 - 1 - r)

abbrev pub FitsInt64 : ℤ → Type 0
FitsInt64 a = (pos_part a < 2 ^ 63) × (neg_part a ≤ 2 ^ 63)

-- `a + b`, `a - b` and `a++` on int64.
unfoldable pub add64 : ℤ → ℤ → ℤ
unfolding wrap64 ◌+ℤ◌
add64 a b = wrap64 (a +ℤ b)

unfoldable pub sub64 : ℤ → ℤ → ℤ
unfolding wrap64 ◌-ℤ◌
sub64 a b = wrap64 (a -ℤ b)

pub wrap64_of_fits : (a : ℤ) → FitsInt64 a → wrap64 a ≡ a
unfolding wrap64
wrap64_of_fits (pos n) h = ground arith
wrap64_of_fits (negsuc n) h = ground arith

pub wrap64-FitsInt64 : (a : ℤ) → FitsInt64 (wrap64 a)
unfolding wrap64
wrap64-FitsInt64 (pos n) = ground arith
wrap64-FitsInt64 (negsuc n) = ground arith

pub add64_pos : (a b : ℕ) → a + b < 2 ^ 63 → add64 (pos a) (pos b) ≡ pos (a + b)
unfolding add64
add64_pos a b h = ground arith

wrap64_examples :
    (add64 (pos (2 ^ 63 - 1)) (pos 1) ≡ negsuc (2 ^ 63 - 1))
    × (sub64 (negsuc (2 ^ 63 - 1)) (pos 1) ≡ pos (2 ^ 63 - 1))
unfolding add64 sub64
wrap64_examples = (refl, refl)
