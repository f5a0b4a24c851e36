-- ===== src/Metrics/Report/Coverage.antt =====
-- The coverage of participants that is reported after a snapshot.
use heyfil.Base.{
  count_if, count_if_mono, ltb, if◌then◌else◌, length, ℕ, ◌^◌, ◌≤◌, ◌<◌, String, ◌≡◌, Bool, true,
  ◌&&◌, arith,
}
use heyfil.Base.Int.{pos}
use heyfil.Base.Dict.{Dict}
use heyfil.Platform.{Platform}
use heyfil.Target.{Target}
use heyfil.Metrics.{Metrics}
use heyfil.Metrics.Snapshot.{snapshot}
use heyfil.Metrics.Snapshot.Counts.{dealing, known, snapshot-counts}
use heyfil.Metrics.Report.{no_ratio, quotient, coverage, participant_coverage}

coverage_pos :
    (a b : ℕ) → coverage (pos a) (pos b) ≡ (if ltb 0 b then quotient (pos a) (pos b) else no_ratio)
unfolding coverage
coverage_pos a b = ground arith

and_first : (a b : Bool) → (a && b) ≡ true → a ≡ true
and_first a b h = ground arith

module _ ⦃p : Platform⦄ where
  -- The coverage of participants that is reported after a snapshot of fewer than 2^63 targets is the
  -- number of those that the indexer knows over the number of those with complete address
  -- information and deals. It is at most 1, and it is left at 0 where there are none of the latter.
  pub participant_coverage-snapshot :
      (ts : Dict String Target) (m : Metrics)
      → length ts < 2 ^ 63
      → let part = count_if (λ e. known e.1) ts in
        let whole = count_if (λ e. dealing e.1) ts in
        (participant_coverage (snapshot ts m)
          ≡ (if ltb 0 whole then quotient (pos part) (pos whole) else no_ratio))
        × (part ≤ whole)
  unfolding participant_coverage
  participant_coverage-snapshot ts m small =
      let (_, _, all, some_known) = snapshot-counts ts m small in
      (rw (all, some_known) (coverage_pos _ _), count_if_mono _ _ ts (λ e. and_first _ _))
