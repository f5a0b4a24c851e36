-- ===== src/Metrics/Report/Statuses.antt =====
-- The statuses of the participants, as they are reported after a snapshot.
use mathlib.Core.List.{Memᴰ}
use heyfil.Base.{
  count_if, Bool-cases, length, Eq, ◌==◌, nat_eq, string_eq, beq_iff, ℕ, ◌^◌, ◌<◌, String, ◌≡◌, sym,
  ap, inl, inr, Option, none, some, [], ◌∷◌, arith,
}
use heyfil.Base.Dict.{Dict, lookup, or_zero}
use heyfil.Base.Int.{int_eq, pos_part, pos, ℤ}
use heyfil.Metrics.Report.{
  Metrics, Target, Platform, ℤ, Attribute, count, labelled, observe_counts, observe_maps,
  report_async_metrics,
}
use heyfil.Metrics.Instruments.{Gauge, participants_by_status}
use heyfil.Metrics.Label.{target_status_to_attribute}
use heyfil.Metrics.Snapshot.{snapshot}
use heyfil.Metrics.Snapshot.Counts.{of_status, snapshot-counts}
use heyfil.Platform.{Platform}
use heyfil.Target.{Status, Target}
use heyfil.Metrics.{Status, Metrics}
use mathlib.Core.List.Memᴰ as Mem

-- A count stands among what the loop over the counts observes.
observe_counts-lookup {ℓ} :
    {K : Type ℓ} ⦃e : Eq K⦄ (g : Gauge) (label : K → Attribute) (counts : Dict K ℤ) (k : K) (n : ℤ)
    → lookup k counts ≡ some n
    → Memᴰ
        (record { gauge = g; reading = count n; attributes = label k ∷ [] })
        (observe_counts g label counts)
unfolding observe_counts lookup
observe_counts-lookup g label [] k n found = absurd (cc)
observe_counts-lookup g label ((j, c) ∷ counts) k n found = elim (Bool-cases (j == k)) [
  | inl q ↦
      let counted : n ≡ c = cc (rw q at found) in
      let same : k ≡ j = sym ((beq_iff j k).0 q) in
      Memᴰ.head
        (λ i. record { gauge = g; reading = count (counted i); attributes = label (same i) ∷ [] })
  | inr q ↦ Memᴰ.tail (observe_counts-lookup g label counts k n (rw q at found))
]

-- A count that is read as more than nothing is in the map.
or_zero-some : (o : Option ℤ) (n : ℕ) → or_zero (pos 0) o ≡ pos n → 0 < n → o ≡ some (pos n)
or_zero-some none n e h =
    let zero_read : 0 ≡ n = ap pos_part e in absurd (omega (arith, zero_read, h))
or_zero-some (some k) n e h = ap some e

module _ ⦃p : Platform⦄ where
  -- When a snapshot of fewer than 2^63 targets has met a status, the report that follows observes
  -- the number of its targets under the label of the status.
  pub status-report :
      (ts : Dict String Target) (m : Metrics) (s : Status)
      → length ts < 2 ^ 63
      → 0 < count_if (λ e. of_status s e.1) ts
      → Memᴰ
          (record {
            gauge = participants_by_status;
            reading = count (pos (count_if (λ e. of_status s e.1) ts));
            attributes = labelled "status" (target_status_to_attribute s) ∷ [];
          })
          (report_async_metrics (snapshot ts m))
  unfolding report_async_metrics observe_maps
  status-report ts m s small met =
      let (counts, _, _, _) = snapshot-counts ts m small in
      Mem.append_left _ (
        Mem.append_left _ (
          observe_counts-lookup participants_by_status
            (λ k. labelled "status" (target_status_to_attribute k)) (snapshot ts m).counts_by_status
            s (pos (count_if (λ e. of_status s e.1) ts)) (or_zero-some _ _ (counts s) met)))
