-- ===== src/Target/Agent/Version.antt =====
-- Versions with build metadata.
use Prim.Native.Char.{Char, code}
use Prim.Native.String
use Prim.Native.String.{[], ◌∷◌}
use text.Mathlib.TextLemmas.{nil-append, cons-append, append-nil}
use heyfil.Base.{
  nat_eq, string_eq, beq_of_ne, String, ◌≡◌, refl, ◌≢◌, true, none, some, arith, ℕ_discrete,
}
use heyfil.FilClient.HeadPattern.{is_dot}
use heyfil.FilClient.HeadPattern.Topic.{OneLine}
use heyfil.Target.Agent.{before_plus, version_group, from_newline, agent_short_version}

abbrev pub NoPlus : String → Type 0
NoPlus [] = Unit
NoPlus (c ∷ s) = (code c ≢ b'+') × NoPlus s

before_plus_of_NoPlus : (s : String) → NoPlus s → before_plus s ≡ none
unfolding before_plus
before_plus_of_NoPlus [] _ = refl
before_plus_of_NoPlus (c ∷ s) (n, h) =
    rw (before_plus_of_NoPlus s h, beq_of_ne (code c) b'+' n) (ground arith)

before_plus-plus : (b : String) → NoPlus b → before_plus ("+" ∷ b) ≡ some ""
unfolding before_plus ℕ_discrete
before_plus-plus b h = rw (before_plus_of_NoPlus b h)

before_plus-append :
    (v b : String) → OneLine v → NoPlus b → before_plus (String.◌++◌ v ("+" ∷ b)) ≡ some v
unfolding before_plus
before_plus-append [] b _ h = rw nil-append (before_plus-plus b h)
before_plus-append (c ∷ v) b (d, k) h = rw (cons-append, before_plus-append v b k h, d)

from_newline_of_OneLine : (s : String) → OneLine s → from_newline s ≡ ""
unfolding from_newline
from_newline_of_OneLine [] _ = refl
from_newline_of_OneLine (c ∷ s) (d, h) = rw (d, from_newline_of_OneLine s h)

OneLine-append : (v b : String) → OneLine v → OneLine b → OneLine (String.◌++◌ v b)
OneLine-append [] b _ h = rw nil-append h
OneLine-append (c ∷ v) b (d, k) h = rw cons-append (d, OneLine-append v b k h)

version_group-append :
    (c : Char) (v b : String)
    → OneLine (c ∷ v)
    → NoPlus b
    → version_group (String.◌++◌ (c ∷ v) ("+" ∷ b)) ≡ some (c ∷ v)
unfolding version_group
version_group-append c v b (d, k) n = rw (cons-append, d, before_plus-append v b k n)

plus_dot : is_dot "+" ≡ true
unfolding ℕ_discrete
plus_dot = refl

-- A version that is not empty, with build metadata behind a plus, is shortened to the version, if
-- both are on one line and the metadata has no plus of its own.
pub agent_short_version-metadata :
    (c : Char) (v b : String)
    → OneLine (c ∷ v)
    → OneLine b
    → NoPlus b
    → agent_short_version (String.◌++◌ (c ∷ v) ("+" ∷ b)) ≡ c ∷ v
unfolding agent_short_version
agent_short_version-metadata c v b k h n =
    rw
      (
        version_group-append c v b k n,
        from_newline_of_OneLine _ (OneLine-append (c ∷ v) ("+" ∷ b) k (plus_dot, h)),
        agent_short_version,
      )
      (append-nil _)
