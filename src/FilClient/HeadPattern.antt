-- ===== src/FilClient/HeadPattern.antt =====
-- `findHeadProtocolMatches` of fil_client.go with the pattern of options.go,
-- `/legs/head/?(/.+)/0.0.1`, matched as Go's regexp does: leftmost, and greedy operators first.
pub mod Topic
use Prim.Native.Char.{Char, code}
use Prim.Native.String.{[], ◌∷◌}
use mathlib.Core.Option
use heyfil.Base.{
  if◌then◌else◌, ◌==◌, nat_eq, string_eq, String, ◌≡◌, refl, Bool, true, false, not, ◌&&◌, Option,
  none, some, map, ℕ_discrete,
}
use heyfil.Base.Text.{strip_prefix}

-- `.` matches every character but a newline.
abbrev pub is_dot : Char → Bool
is_dot c = not (code c == 10)

abbrev pub or_else {ℓ} : {A : Type ℓ} → Option A → Option A → Option A
or_else none b = b
or_else (some a) b = some a

-- `/0.0.1` at the beginning; its dots match any character
unfoldable pub begins_version : String → Bool
begins_version (a ∷ b ∷ c ∷ d ∷ e ∷ f ∷ s) =
    code a == b'/' && code b == b'0' && is_dot c && code d == b'0' && is_dot e && code f == b'1'
begins_version _ = false

-- `.*` before `/0.0.1`: the longest run that leaves a match
unfoldable pub longest : String → Option String
unfolding begins_version
longest [] = none
longest (c ∷ s) =
    let here = if begins_version (c ∷ s) then some "" else none in
    if is_dot c then or_else (Option.map (◌∷◌ c) (longest s)) here else here

-- `(/.+)/0.0.1`: what the group takes
unfoldable pub group : String → Option String
unfolding longest
group (a ∷ c ∷ s) =
    if code a == b'/' && is_dot c then Option.map (λ g. a ∷ c ∷ g) (longest s) else none
group _ = none

-- `/?(/.+)/0.0.1`: the slash is taken first, and given back if nothing matches behind it
unfoldable pub after_head : String → Option String
unfolding group
after_head [] = none
after_head (a ∷ s) = or_else (if code a == b'/' then group s else none) (group (a ∷ s))

unfoldable pub find_submatch : String → Option String
find_submatch [] = none
find_submatch (c ∷ s) =
    or_else (Option.bind (strip_prefix "/legs/head" (c ∷ s)) after_head) (find_submatch s)

unfoldable pub find_head_protocol_matches : String → Bool × String
find_head_protocol_matches pid = elim (find_submatch pid) [
  | none ↦ (false, "")
  | some g ↦ (true, g)
]

head_tests :
    (find_head_protocol_matches "/legs/head/indexer/ingest/mainnet/0.0.1"
      ≡ (true, "/indexer/ingest/mainnet"))
    × (find_head_protocol_matches "/legs/head//indexer/x/0.0.1" ≡ (true, "/indexer/x"))
    × (find_head_protocol_matches "/ipfs/id/1.0.0" ≡ (false, ""))
unfolding find_head_protocol_matches find_submatch after_head strip_prefix Option.bind ℕ_discrete
head_tests = (refl, refl, refl)
