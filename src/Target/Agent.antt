-- ===== src/Target/Agent.antt =====
-- `agentShortVersionPattern` of target.go, `^(.+)\+.*`, and its use in `check`.
pub mod Version
use Prim.Native.Char.{code}
use Prim.Native.String
use Prim.Native.String.{[], ◌∷◌}
use mathlib.Core.Option
use heyfil.Base.{
  if◌then◌else◌, ◌==◌, nat_eq, string_eq, String, ◌≡◌, refl, Option, none, some, ◌++◌, map,
  ℕ_discrete,
}
use heyfil.FilClient.HeadPattern.{is_dot, or_else}

-- `.*` before a `\+`: the longest run on the line
unfoldable pub before_plus : String → Option String
before_plus [] = none
before_plus (c ∷ s) =
    let here = if code c == b'+' then some "" else none in
    if is_dot c then or_else (Option.map (◌∷◌ c) (before_plus s)) here else none

-- `(.+)` of a match at the beginning
unfoldable pub version_group : String → Option String
unfolding before_plus
version_group [] = none
version_group (c ∷ s) = if is_dot c then Option.map (◌∷◌ c) (before_plus s) else none

-- What stands behind the first line: `.*` takes the rest of that line.
unfoldable pub from_newline : String → String
from_newline [] = []
from_newline (c ∷ s) = if is_dot c then from_newline s else c ∷ s

-- `agentShortVersionPattern.ReplaceAllString(v, "$1")`
unfoldable pub agent_short_version : String → String
agent_short_version v = elim (version_group v) [
  | none ↦ v
  | some g ↦ String.◌++◌ g (from_newline v)
]

agent_tests :
    (agent_short_version "boost-2.1.0+git.abc" ≡ "boost-2.1.0")
    × (agent_short_version "lotus-1.20+mainnet+git.1" ≡ "lotus-1.20+mainnet")
    × (agent_short_version "+x" ≡ "+x")
    × (agent_short_version "venus" ≡ "venus")
unfolding agent_short_version version_group from_newline ℕ_discrete
agent_tests = (refl, refl, refl, refl)
