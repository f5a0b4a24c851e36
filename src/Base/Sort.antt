-- ===== src/Base/Sort.antt =====
-- `sort.Strings`: the ascending order of texts by their code points, and the sorted list.
use Prim.Native.Char.{code}
use mathlib.Core.List.{Permᴰ}
use text.Mathlib.TextEquality.{Char-path}
use heyfil.Base.{
  ltb, if◌then◌else◌, Bool-cases, All, ◌==◌, contains, nat_eq, string_eq, String, ◌≡◌, refl, ap,
  ◌∙◌, inl, inr, Bool, true, false, ◌||◌, List, [], ◌∷◌, arith,
}

unfoldable pub str_leb : String → String → Bool
str_leb String.[] t = true
str_leb (String.◌∷◌ c s) String.[] = false
str_leb (String.◌∷◌ c s) (String.◌∷◌ d t) =
    let rest = str_leb s t in
    if ltb (code c) (code d) then true else if code c == code d then rest else false

unfoldable pub insert_sorted : String → List String → List String
insert_sorted x [] = x ∷ []
insert_sorted x (y ∷ ys) =
    let later = insert_sorted x ys in if str_leb x y then x ∷ y ∷ ys else y ∷ later

unfoldable pub sort : List String → List String
unfolding insert_sorted str_leb
sort [] = []
sort (x ∷ xs) = insert_sorted x (sort xs)

abbrev pub IsSorted : List String → Type 0
IsSorted [] = Unit
IsSorted (x ∷ xs) = All (λ y. str_leb x y ≡ true) xs × IsSorted xs

pub str_leb_total : (s t : String) → str_leb s t ≡ false → str_leb t s ≡ true
unfolding str_leb
str_leb_total String.[] t e = cc
str_leb_total (String.◌∷◌ c s) String.[] e = refl
str_leb_total (String.◌∷◌ c s) (String.◌∷◌ d t) e = ground (arith, str_leb_total s t)

pub str_leb_trans : (s t u : String) → str_leb s t ≡ true → str_leb t u ≡ true → str_leb s u ≡ true
unfolding str_leb
str_leb_trans String.[] t u e f = refl
str_leb_trans (String.◌∷◌ c s) String.[] u e f = cc
str_leb_trans (String.◌∷◌ c s) (String.◌∷◌ d t) String.[] e f = cc
str_leb_trans (String.◌∷◌ c s) (String.◌∷◌ d t) (String.◌∷◌ a u) e f =
    ground (arith, str_leb_trans s t u)

pub str_leb_antisymm : (s t : String) → str_leb s t ≡ true → str_leb t s ≡ true → s ≡ t
unfolding str_leb
str_leb_antisymm String.[] String.[] e f = refl
str_leb_antisymm String.[] (String.◌∷◌ d t) e f = cc
str_leb_antisymm (String.◌∷◌ c s) String.[] e f = cc
str_leb_antisymm (String.◌∷◌ c s) (String.◌∷◌ d t) e f =
    ground (arith, str_leb_antisymm s t, Char-path c d)

All-insert_sorted :
    (P : String → Type 0) (x : String) (xs : List String)
    → P x
    → All P xs
    → All P (insert_sorted x xs)
unfolding insert_sorted
All-insert_sorted P x [] p h = (p, tt)
All-insert_sorted P x (y ∷ ys) p (q, h) = elim (Bool-cases (str_leb x y)) [
  | inl e ↦ rw e (p, (q, h))
  | inr e ↦ rw e (q, All-insert_sorted P x ys p h)
]

All-trans :
    (x y : String) (xs : List String)
    → str_leb x y ≡ true
    → All (λ z. str_leb y z ≡ true) xs
    → All (λ z. str_leb x z ≡ true) xs
All-trans x y [] e h = tt
All-trans x y (z ∷ zs) e (f, h) = (str_leb_trans x y z e f, All-trans x y zs e h)

insert_sorted-IsSorted :
    (x : String) (xs : List String) → IsSorted xs → IsSorted (insert_sorted x xs)
unfolding insert_sorted
insert_sorted-IsSorted x [] s = (tt, tt)
insert_sorted-IsSorted x (y ∷ ys) (h, s) = elim (Bool-cases (str_leb x y)) [
  | inl e ↦ rw e ((e, All-trans x y ys e h), (h, s))
  | inr e ↦ rw e (All-insert_sorted _ x ys (str_leb_total x y e) h, insert_sorted-IsSorted x ys s)
]

pub sort-IsSorted : (xs : List String) → IsSorted (sort xs)
unfolding sort
sort-IsSorted [] = tt
sort-IsSorted (x ∷ xs) = insert_sorted-IsSorted x (sort xs) (sort-IsSorted xs)

-- Two insertions can be made in either order.
insert_sorted_comm :
    (x y : String) (xs : List String)
    → insert_sorted x (insert_sorted y xs) ≡ insert_sorted y (insert_sorted x xs)
unfolding insert_sorted
insert_sorted_comm x y [] = ground (arith, str_leb_total x y, str_leb_antisymm x y)
insert_sorted_comm x y (z ∷ zs) = ground (
  arith,
  str_leb_total x y,
  str_leb_antisymm x y,
  str_leb_trans x y z,
  str_leb_trans y x z,
  insert_sorted_comm x y zs,
)

-- The sorted list does not depend on the order of the elements.
pub sort-perm : {xs ys : List String} → Permᴰ xs ys → sort xs ≡ sort ys
unfolding sort
sort-perm Permᴰ.nil = refl
sort-perm (Permᴰ.cons {b = x} e h) = rw e (ap (insert_sorted x) (sort-perm h))
sort-perm (Permᴰ.swap {a' = x} {b' = y} {l = l} e f) = rw (e, f) (insert_sorted_comm y x (sort l))
sort-perm (Permᴰ.trans h k) = sort-perm h ∙ sort-perm k

contains-insert_sorted :
    (a x : String) (xs : List String) → contains (insert_sorted x xs) a ≡ (x == a || contains xs a)
unfolding insert_sorted
contains-insert_sorted a x [] = refl
contains-insert_sorted a x (y ∷ ys) = ground (arith, contains-insert_sorted a x ys)

pub contains-sort : (a : String) (xs : List String) → contains (sort xs) a ≡ contains xs a
unfolding sort
contains-sort a [] = refl
contains-sort a (x ∷ xs) =
    contains-insert_sorted a x (sort xs) ∙ ap (◌||◌ (x == a)) (contains-sort a xs)
