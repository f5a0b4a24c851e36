-- ===== src/DealCounts.antt =====
-- `dealCounts` of fil_deal_stats.go, the record that the deal statistics keep of a participant.
use heyfil.Base.{nat_eq, string_eq, String}
use heyfil.Base.Int.{ℤ, pos}
use heyfil.Base.Dict.{Dict, lookup, or_zero}

pub record DealCounts : Type 0 where
  pub count : ℤ
  pub bytes : ℤ
  pub count_within_day : ℤ
  pub bytes_within_day : ℤ
  pub count_within_week : ℤ
  pub bytes_within_week : ℤ

-- the zero value
abbrev pub no_deals : DealCounts
no_deals = record {
  count = pos 0;
  bytes = pos 0;
  count_within_day = pos 0;
  bytes_within_day = pos 0;
  count_within_week = pos 0;
  bytes_within_week = pos 0;
}

-- `ds.dealCountByParticipant[id]` under the read lock
unfoldable pub get_deal_counts : Dict String DealCounts → String → DealCounts
get_deal_counts by_participant id = or_zero no_deals (lookup id by_participant)
