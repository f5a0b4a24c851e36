-- ===== src/Metrics/Snapshot/Counts.antt =====
-- The counts of a snapshot, against the targets that it was taken of.
use heyfil.Base.{
  count_if, if◌then◌else◌, Bool-cases, length, ◌==◌, nat_eq, string_eq, beq_iff, ℕ, ◌+◌, ◌^◌, ◌<◌,
  String, ◌≡◌, refl, ap, ◌∙◌, inl, inr, Bool, ◌&&◌, [], ◌∷◌, arith,
}
use heyfil.Base.Int.{ℤ, pos, add64, add64_pos, int_eq}
use heyfil.Base.Dict.{Dict, lookup, or_zero, lookup-insert, lookup-nil}
use heyfil.Platform.{Platform}
use heyfil.Target.{Target, Status}
use heyfil.Metrics.{Metrics, bump}
use heyfil.Metrics.Snapshot.{
  Totals, no_totals, is_addressable, has_deals, count_known, count_addressable, count_power,
  count_target, count_targets, snapshot,
}

module _ ⦃p : Platform⦄ where
  -- How one counter of the totals grows with a target.
  record IsCounter (taken : Target → Bool) (read : Totals → ℤ) : Type 0 where
    start : read no_totals ≡ pos 0
    grows :
        (t : Target) (a : Totals)
        → read (count_target t a) ≡ (if taken t then add64 (read a) (pos 1) else read a)

  abbrev pub of_status : Status → Target → Bool
  of_status s t = t.status == s

  abbrev read_status : Status → Totals → ℤ
  read_status s a = or_zero (pos 0) (lookup s a.by_status)

  by_status-count_addressable :
      (t : Target) (a : Totals) → (count_addressable t a).by_status ≡ a.by_status
  unfolding count_addressable count_known
  by_status-count_addressable t a = ground arith

  by_status-count_power : (t : Target) (a : Totals) → (count_power t a).by_status ≡ a.by_status
  unfolding count_power
  by_status-count_power t a = ground arith

  status-IsCounter : (s : Status) → IsCounter (of_status s) (read_status s)
  unfolding count_target bump
  status-IsCounter s = record {
    start = rw lookup-nil;
    grows = λ t a.
        rw (lookup-insert, by_status-count_power, by_status-count_addressable)
          (elim (Bool-cases (of_status s t)) [
            | inr e ↦ rw e
            | inl e ↦ rw e (ap (λ k. add64 (read_status k a) (pos 1)) ((beq_iff t.status s).0 e))
          ]);
  }

  abbrev pub dealing : Target → Bool
  dealing t = is_addressable t && has_deals t

  abbrev pub known : Target → Bool
  known t = dealing t && t.known_by_indexer

  addressable-IsCounter : IsCounter is_addressable (λ a. a.addressable)
  unfolding count_target count_power count_addressable count_known
  addressable-IsCounter = record { start = refl; grows = λ t a. ground arith }

  dealing-IsCounter : IsCounter dealing (λ a. a.with_non_zero_deals)
  unfolding count_target count_power count_addressable count_known
  dealing-IsCounter = record { start = refl; grows = λ t a. ground arith }

  known-IsCounter : IsCounter known (λ a. a.known_by_indexer)
  unfolding count_target count_power count_addressable count_known
  known-IsCounter = record { start = refl; grows = λ t a. ground arith }

  module _ {taken : Target → Bool} {read : Totals → ℤ} (counter : IsCounter taken read) where
    abbrev taken_entry : String × Target → Bool
    taken_entry e = taken e.1

    read-count_targets :
        (ts : Dict String Target) (a : Totals) (n : ℕ)
        → n + length ts < 2 ^ 63
        → read a ≡ pos n
        → read (count_targets ts a) ≡ pos (n + count_if taken_entry ts)
    unfolding count_targets
    read-count_targets [] a n small e = e ∙ ap pos (omega arith)
    read-count_targets ((id, t) ∷ ts) a n small e =
        read-count_targets ts (count_target t a) (n + (if taken t then 1 else 0)) (ground arith)
          (counter.grows t a ∙ ground (arith, e, add64_pos n 1))
        ∙ ap pos (ground arith)

    read-snapshot :
        (ts : Dict String Target)
        → length ts < 2 ^ 63
        → read (count_targets ts no_totals) ≡ pos (count_if taken_entry ts)
    read-snapshot ts small =
        read-count_targets ts no_totals 0 (omega arith) counter.start ∙ ap pos (omega arith)

  -- A snapshot of fewer than 2^63 targets counts the targets of every status, those with complete
  -- address information, those of them with deals, and those of these that the indexer knows,
  -- whatever the metrics were before.
  pub snapshot-counts :
      (ts : Dict String Target) (m : Metrics)
      → length ts < 2 ^ 63
      → ((s : Status)
          → or_zero (pos 0) (lookup s (snapshot ts m).counts_by_status)
            ≡ pos (count_if (λ e. of_status s e.1) ts))
        × ((snapshot ts m).total_addressable_participants
            ≡ pos (count_if (λ e. is_addressable e.1) ts))
        × ((snapshot ts m).total_addressable_participants_with_non_zero_deals
            ≡ pos (count_if (λ e. dealing e.1) ts))
        × ((snapshot ts m).total_participants_known_by_indexer ≡ pos (count_if (λ e. known e.1) ts))
  unfolding snapshot
  snapshot-counts ts m small = (
    λ s. read-snapshot (status-IsCounter s) ts small,
    read-snapshot addressable-IsCounter ts small,
    read-snapshot dealing-IsCounter ts small,
    read-snapshot known-IsCounter ts small,
  )
