-- ===== src/FilClient/HeadPattern/Topic.antt =====
-- Topics in the identifiers of head protocols.
use Prim.Native.Char.{Char, code}
use Prim.Native.String
use Prim.Native.String.{[], ◌∷◌}
use mathlib.Core.Option
use text.Mathlib.TextLemmas.{cons-append}
use heyfil.Base.{nat_eq, string_eq, beq_of_ne, String, ◌≡◌, refl, ◌≢◌, true, none, some, ℕ_discrete}
use heyfil.Base.Text.{strip_prefix, strip_prefix-append}
use heyfil.FilClient.HeadPattern.{
  is_dot, longest, group, after_head, find_submatch, find_head_protocol_matches,
}

-- A text on one line.
abbrev pub OneLine : String → Type 0
OneLine [] = Unit
OneLine (c ∷ s) = (is_dot c ≡ true) × OneLine s

longest_version : longest "/0.0.1" ≡ some ""
unfolding longest ℕ_discrete Option.map
longest_version = refl

-- The longest run before the last version is everything before it.
longest-append : (t : String) → OneLine t → longest (String.◌++◌ t "/0.0.1") ≡ some t
unfolding longest
longest-append [] _ = longest_version
longest-append (c ∷ t) (d, h) = rw (cons-append, d, longest-append t h)

-- What follows "/legs/head" for a topic of two characters or more that begins with one slash.
group-append :
    (c : Char) (t : String)
    → is_dot c ≡ true
    → OneLine t
    → group ("/" ∷ c ∷ String.◌++◌ t "/0.0.1") ≡ some ("/" ∷ c ∷ t)
unfolding group ℕ_discrete
group-append c t d h = rw (d, longest-append t h)

group_of_ne : (c : Char) (s : String) → code c ≢ b'/' → group (c ∷ s) ≡ none
unfolding group
group_of_ne c [] n = refl
group_of_ne c (d ∷ s) n = rw (beq_of_ne (code c) b'/' n)

after_head-append :
    (c : Char) (t : String)
    → code c ≢ b'/'
    → OneLine (c ∷ t)
    → after_head (String.◌++◌ ("/" ∷ c ∷ t) "/0.0.1") ≡ some ("/" ∷ c ∷ t)
unfolding after_head ℕ_discrete
after_head-append c t n (d, h) =
    rw (cons-append, cons-append, group_of_ne c _ n) (group-append c t d h)

strip_prefix-nil : strip_prefix "/legs/head" "" ≡ none
unfolding strip_prefix
strip_prefix-nil = refl

-- A match at the beginning is the leftmost one.
find_submatch_first :
    (s r g : String)
    → strip_prefix "/legs/head" s ≡ some r
    → after_head r ≡ some g
    → find_submatch s ≡ some g
unfolding find_submatch Option.bind
find_submatch_first [] r g e f = absurd (cc (e, strip_prefix-nil))
find_submatch_first (c ∷ s) r g e f = rw (e, f)

-- A head protocol on a topic, as publishers name it, matches with exactly that topic, if the topic
-- is on one line and is a slash with at least one character behind it, the first of which is no
-- slash.
pub find_head_protocol_matches-topic :
    (c : Char) (t : String)
    → code c ≢ b'/'
    → OneLine (c ∷ t)
    → find_head_protocol_matches (String.◌++◌ "/legs/head" (String.◌++◌ ("/" ∷ c ∷ t) "/0.0.1"))
      ≡ (true, "/" ∷ c ∷ t)
unfolding find_head_protocol_matches
find_head_protocol_matches-topic c t n h = rw (
  find_submatch_first _ _ _ (strip_prefix-append "/legs/head" _) (after_head-append c t n h),
  find_head_protocol_matches,
)
