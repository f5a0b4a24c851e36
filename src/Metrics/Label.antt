-- ===== src/Metrics/Label.antt =====
-- `targetStatusToAttribute` of metrics.go: the label of a status.
use heyfil.Base.{
  if◌then◌else◌, ◌==◌, nat_eq, string_eq, beq_iff, ℕ, zero, suc, ◌<◌, String, ◌≡◌, refl, sym, ap,
  ◌∙◌, Bool, true, ◌&&◌, List, [], ◌∷◌, arith, ℕ_discrete,
}
use heyfil.Base.Int.{pos, int_eq, int_dec}
use heyfil.Target.{
  Status, status_ok, status_api_call_failed, status_internal_error, status_unknown,
  status_unknown_rpc_error, status_not_miner, status_unreachable, status_unaddressable,
  status_unindexed, status_topic_mismatch, status_empty_head, status_get_head_error,
  status_announce_error, status_unidentifiable, status_no_addr_info,
}

-- the cases of the `switch`, in order
abbrev labels : List (Status × String)
labels =
    (status_unknown, "unknown")
    ∷ (status_ok, "ok")
    ∷ (status_api_call_failed, "err-api-call")
    ∷ (status_internal_error, "err-internal")
    ∷ (status_unknown_rpc_error, "err-rpc-unknown")
    ∷ (status_not_miner, "not-miner")
    ∷ (status_unreachable, "unreachable")
    ∷ (status_unaddressable, "unaddressable")
    ∷ (status_unidentifiable, "unidentifiable")
    ∷ (status_no_addr_info, "no-addrinfo")
    ∷ (status_unindexed, "unindexed")
    ∷ (status_topic_mismatch, "topic-mismatch")
    ∷ (status_empty_head, "empty-head")
    ∷ (status_get_head_error, "err-get-head")
    ∷ (status_announce_error, "err-announce")
    ∷ []

unfoldable pub choose : Status → List (Status × String) → String
choose s [] = "unknown"
choose s ((c, value) ∷ rest) = if s == c then value else choose s rest

-- the value of the attribute with the key "status"
unfoldable pub target_status_to_attribute : Status → String
unfolding choose
target_status_to_attribute s = choose s labels

-- The number of the status that a label names.
unfoldable pub number_of : String → ℕ
number_of l =
    if l == "unknown"
    then 0
    else if l == "ok"
    then 1
    else if l == "err-api-call"
    then 2
    else if l == "err-internal"
    then 3
    else if l == "err-rpc-unknown"
    then 4
    else if l == "not-miner"
    then 5
    else if l == "unreachable"
    then 6
    else if l == "unaddressable"
    then 7
    else if l == "unindexed"
    then 8
    else if l == "topic-mismatch"
    then 9
    else if l == "empty-head"
    then 10
    else if l == "err-get-head"
    then 11
    else if l == "err-announce"
    then 12
    else if l == "unidentifiable"
    then 13
    else if l == "no-addrinfo"
    then 14
    else 15

all_below : ℕ → (ℕ → Bool) → Bool
all_below zero f = true
all_below (suc n) f = f n && all_below n f

all_below_sound : (n : ℕ) (f : ℕ → Bool) (x : ℕ) → all_below n f ≡ true → x < n → f x ≡ true
unfolding all_below
all_below_sound zero f x h lt = absurd (omega arith)
all_below_sound (suc n) f x h lt = ground (arith, all_below_sound n f x)

label_table : all_below 15 (λ n. number_of (target_status_to_attribute (pos n)) == n) ≡ true
unfolding all_below number_of target_status_to_attribute int_dec ℕ_discrete string_eq
label_table = refl

number_of-label : (n : ℕ) → n < 15 → number_of (target_status_to_attribute (pos n)) ≡ n
number_of-label n h = (beq_iff _ n).0 (all_below_sound 15 _ n label_table h)

-- Two of the 15 named statuses with the same label are the same status.
pub label_injective :
    (n m : ℕ)
    → n < 15
    → m < 15
    → target_status_to_attribute (pos n) ≡ target_status_to_attribute (pos m)
    → n ≡ m
label_injective n m hn hm e = sym (number_of-label n hn) ∙ ap number_of e ∙ number_of-label m hm
