-- ===== src/Metrics/Report/Power.antt =====
-- The power of the participants that run Boost, as a snapshot sums it and as it is reported.
use mathlib.Core.Path.{subst}
use heyfil.Base.{
  if◌then◌else◌, Option-cases, contains, nat_eq, string_eq, String, ◌≡◌, refl, sym, ap, ◌∙◌, ◌↔◌,
  inl, inr, Bool, ◌&&◌, Option, none, some, List, [], ◌∷◌, arith,
}
use heyfil.Base.Int.{negsuc, ◌+ℤ◌, ℤ, pos, wrap64, FitsInt64, wrap64_of_fits, wrap64-FitsInt64}
use heyfil.Base.Number.{signed}
use heyfil.Base.Dict.{Dict}
use heyfil.Platform.{Platform, StateMinerPowerResp}
use heyfil.Target.{Target, supports_protocol_id}
use heyfil.Metrics.{Metrics}
use heyfil.Metrics.Snapshot.{
  fil_storage_market_1_2_0, Totals, no_totals, add_power, count_power, count_addressable,
  count_known, count_target, count_targets, snapshot,
}
use heyfil.Metrics.Report.{count, raw_power_reading}

module _ ⦃p : Platform⦄ where
  -- The raw power that a target claims, if it has the minimum power and runs Boost.
  abbrev claimed : Option StateMinerPowerResp → Bool → Option String
  claimed none boost = none
  claimed (some r) boost =
      if r.has_min_power && boost then some r.miner_power.raw_byte_power else none

  abbrev pub raw_power : Target → Option String
  raw_power t = claimed t.state_miner_power (contains t.protocols "/fil/storage/mk/1.2.0")

  -- A power that is no number counts as nothing.
  abbrev worth : Option ℤ → ℤ
  worth none = pos 0
  worth (some n) = n

  abbrev add_claim : Option String → ℤ → ℤ
  add_claim none sum = sum
  add_claim (some s) sum = sum +ℤ worth (signed s)

  abbrev pub sum_raw_power : Dict String Target → ℤ → ℤ
  sum_raw_power [] sum = sum
  sum_raw_power ((_, t) ∷ ts) sum = sum_raw_power ts (add_claim (raw_power t) sum)

  add_zero : (a : ℤ) → a +ℤ pos 0 ≡ a
  unfolding ◌+ℤ◌
  add_zero (pos n) = ground arith
  add_zero (negsuc n) = ground arith

  add_worth :
      (o : Option ℤ) (sum : ℤ) → (elim o [ none ↦ sum | some n ↦ sum +ℤ n ]) ≡ sum +ℤ worth o
  add_worth none sum = sym (add_zero sum)
  add_worth (some n) sum = refl

  add_power_lem : (s : String) (sum : ℤ) → add_power s sum ≡ sum +ℤ worth (signed s)
  unfolding add_power
  add_power_lem s sum = add_worth (signed s) sum

  supports-contains :
      (ids : List String) (id : String) → supports_protocol_id ids id ≡ contains ids id
  unfolding supports_protocol_id
  supports-contains [] id = refl
  supports-contains (x ∷ ids) id = ground (arith, supports-contains ids id)

  raw_power-count_addressable :
      (t : Target) (a : Totals) → (count_addressable t a).boost_raw_power ≡ a.boost_raw_power
  unfolding count_addressable count_known
  raw_power-count_addressable t a = ground arith

  raw_power-count_power :
      (t : Target) (a : Totals)
      → (count_power t a).boost_raw_power ≡ add_claim (raw_power t) a.boost_raw_power
  unfolding count_power
  raw_power-count_power t a = elim (Option-cases t.state_miner_power) [
    | inl e ↦ ground arith
    | inr (r, e) ↦ ground (
      arith,
      supports-contains t.protocols fil_storage_market_1_2_0,
      add_power_lem r.miner_power.raw_byte_power a.boost_raw_power,
    )
  ]

  raw_power-count_target :
      (t : Target) (a : Totals)
      → (count_target t a).boost_raw_power ≡ add_claim (raw_power t) a.boost_raw_power
  unfolding count_target
  raw_power-count_target t a =
      raw_power-count_power t (count_addressable t a)
      ∙ ap (add_claim (raw_power t)) (raw_power-count_addressable t a)

  raw_power-count_targets :
      (ts : Dict String Target) (a : Totals)
      → (count_targets ts a).boost_raw_power ≡ sum_raw_power ts a.boost_raw_power
  unfolding count_targets
  raw_power-count_targets [] a = refl
  raw_power-count_targets ((id, t) ∷ ts) a =
      raw_power-count_targets ts (count_target t a)
      ∙ ap (sum_raw_power ts) (raw_power-count_target t a)

  raw_power-snapshot :
      (ts : Dict String Target) (m : Metrics)
      → (snapshot ts m).total_boost_raw_power ≡ sum_raw_power ts (pos 0)
  unfolding snapshot
  raw_power-snapshot ts m = raw_power-count_targets ts no_totals

  reading-wrap64 : (a : ℤ) → FitsInt64 a ↔ (count (wrap64 a) ≡ count a)
  reading-wrap64 a = (
    λ h. ap count (wrap64_of_fits a h),
    λ e. let same : wrap64 a ≡ a = cc in subst FitsInt64 same (wrap64-FitsInt64 a),
  )

  -- The raw power that is reported after a snapshot is the sum of the raw powers that the targets
  -- with the minimum power and with Boost claim, exactly when that sum fits an int64.
  pub raw_power-report :
      (ts : Dict String Target) (m : Metrics)
      → FitsInt64 (sum_raw_power ts (pos 0))
        ↔ (raw_power_reading (snapshot ts m) ≡ count (sum_raw_power ts (pos 0)))
  unfolding raw_power_reading
  raw_power-report ts m = rw raw_power-snapshot (reading-wrap64 (sum_raw_power ts (pos 0)))
