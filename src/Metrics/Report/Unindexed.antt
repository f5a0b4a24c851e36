-- ===== src/Metrics/Report/Unindexed.antt =====
-- The participants that the unindexed gauge reports.
use heyfil.Base.{
  is_some, ◌==◌, nat_eq, string_eq, String, ◌≡◌, refl, Bool, true, false, ◌&&◌, ◌||◌, List, [], ◌∷◌,
  ◌++◌, arith,
}
use heyfil.Base.Dict.{Dict, lookup}
use heyfil.Platform.{Platform}
use heyfil.Target.{Target}
use heyfil.Metrics.{ℤ, Metrics}
use heyfil.Metrics.Instruments.{Gauge, unindexed_deal_count}
use heyfil.Metrics.Snapshot.{snapshot}
use heyfil.Metrics.Snapshot.Unindexed.{is_noted, unindexed-snapshot}
use heyfil.Metrics.Report.{
  Value, text, flag, Attribute, Observation, observe_counts, observe_unindexed, observe_maps,
  observe_participants, observe_deals, observe_coverage, observe_boost, report_async_metrics,
}
use heyfil.Base.Int.{ℤ}

abbrev pub is_unindexed : Gauge → Bool
is_unindexed unindexed_deal_count = true
is_unindexed _ = false

abbrev pub is_text : String → Value → Bool
is_text s (text t) = t == s
is_text s (flag b) = false

abbrev pub has_id : String → List Attribute → Bool
has_id id [] = false
has_id id (a ∷ rest) = (a.key == "id" && is_text id a.value) || has_id id rest

-- Some observation of the unindexed gauge carries the identifier.
unfoldable pub reports_unindexed : String → List Observation → Bool
reports_unindexed id [] = false
reports_unindexed id (o ∷ os) =
    (is_unindexed o.gauge && has_id id o.attributes) || reports_unindexed id os

reports_unindexed-append :
    (id : String) (xs ys : List Observation)
    → reports_unindexed id (xs ++ ys) ≡ (reports_unindexed id xs || reports_unindexed id ys)
unfolding reports_unindexed
reports_unindexed-append id [] ys = refl
reports_unindexed-append id (x ∷ xs) ys = ground (arith, reports_unindexed-append id xs ys)

reports_unindexed-observe_counts {ℓ} :
    {K : Type ℓ} (id : String) (g : Gauge) (label : K → Attribute) (counts : Dict K ℤ)
    → is_unindexed g ≡ false
    → reports_unindexed id (observe_counts g label counts) ≡ false
unfolding reports_unindexed observe_counts
reports_unindexed-observe_counts id g label [] other = refl
reports_unindexed-observe_counts id g label ((k, c) ∷ counts) other =
    rw (other, reports_unindexed-observe_counts id g label counts other) refl

module _ ⦃p : Platform⦄ (id : String) where
  reports_unindexed-observe_unindexed :
      (ts : Dict String Target)
      → reports_unindexed id (observe_unindexed ts) ≡ is_some (lookup id ts)
  unfolding reports_unindexed observe_unindexed lookup string_eq
  reports_unindexed-observe_unindexed [] = refl
  reports_unindexed-observe_unindexed ((k, t) ∷ ts) =
      ground (arith, reports_unindexed-observe_unindexed ts)

  reports_unindexed-observe_maps : (m : Metrics) → reports_unindexed id (observe_maps m) ≡ false
  unfolding observe_maps
  reports_unindexed-observe_maps m =
      rw
        (
          reports_unindexed-append, reports_unindexed-append, reports_unindexed-append,
          reports_unindexed-observe_counts, reports_unindexed-observe_counts,
          reports_unindexed-observe_counts, reports_unindexed-observe_counts,
        )
        refl

  others :
      (m : Metrics)
      → (reports_unindexed id (observe_participants m) ≡ false)
        × (reports_unindexed id (observe_deals m) ≡ false)
        × (reports_unindexed id (observe_coverage m) ≡ false)
        × (reports_unindexed id (observe_boost m) ≡ false)
  unfolding reports_unindexed observe_participants observe_deals observe_coverage observe_boost
  others m = (refl, refl, refl, refl)

  parts :
      (m : Metrics)
      → report_async_metrics m
        ≡ observe_maps m
          ++ (observe_participants m
              ++ (observe_deals m
                  ++ (observe_coverage m
                      ++ (observe_unindexed m.unindexed_targets ++ observe_boost m))))
  unfolding report_async_metrics
  parts m = refl

  -- The unindexed gauge reports the targets that are noted for it, and no others.
  reports_unindexed-report :
      (m : Metrics)
      → reports_unindexed id (report_async_metrics m) ≡ is_some (lookup id m.unindexed_targets)
  reports_unindexed-report m =
      let (people, deals, coverage, boost) = others m in
      rw
        (
          parts, reports_unindexed-append, reports_unindexed-append, reports_unindexed-append,
          reports_unindexed-append, reports_unindexed-append, reports_unindexed-observe_maps,
          people, deals, coverage, boost, reports_unindexed-observe_unindexed,
        )
        (ground arith)

  -- The report after a snapshot observes the unindexed gauge for a participant if and only if the
  -- report before did so or one of the targets with its identifier is unindexed, so that none is
  -- ever taken off.
  pub unindexed-report :
      (ts : Dict String Target) (m : Metrics)
      → reports_unindexed id (report_async_metrics (snapshot ts m))
        ≡ (reports_unindexed id (report_async_metrics m) || is_noted id ts)
  unindexed-report ts m =
      rw (reports_unindexed-report (snapshot ts m), reports_unindexed-report m)
        (unindexed-snapshot ts m id)
