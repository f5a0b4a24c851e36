-- ===== src/DealStats.antt =====
-- fil_deal_stats.go: the pass over the market deals that counts them by participant.
pub mod Counts
pub mod Meaning
pub mod Totals
pub mod Pieces
use heyfil.Base.{
  if◌then◌else◌, ◌==◌, nat_eq, string_eq, ℕ, ◌*◌, ◌/◌, String, Bool, true, false, not, Option, none,
  some, List, [], ◌∷◌,
}
use heyfil.Base.Int.{ℤ, pos, negsuc, ltb_ℤ, add64, sub64, int_eq}
use heyfil.Base.Dict.{Dict, insert, lookup}
use heyfil.Base.Result.{Error}
use heyfil.DealCounts.{DealCounts, no_deals, get_deal_counts}
use heyfil.Deal.{StateMarketDeal, StateMarketDealResult}

abbrev pub fil_epoch_seconds : ℕ
fil_epoch_seconds = 30

abbrev pub fil_epoch_day : ℕ
fil_epoch_day = 24 * 60 * 60 / fil_epoch_seconds

abbrev pub fil_epoch_week : ℕ
fil_epoch_week = 7 * fil_epoch_day

pub record LatestPiece : Type 0 where
  pub epoch : ℤ
  pub cid : String

-- The local variables of `refresh`.
pub record Tally : Type 0 where
  pub deal_count_by_participant : Dict String DealCounts
  pub latest_piece_by_participant : Dict String LatestPiece
  pub total_deal_count : ℤ
  pub total_deal_count_within_week : ℤ
  pub total_deal_count_within_day : ℤ

abbrev pub empty_tally : Tally
empty_tally = record {
  deal_count_by_participant = [];
  latest_piece_by_participant = [];
  total_deal_count = pos 0;
  total_deal_count_within_week = pos 0;
  total_deal_count_within_day = pos 0;
}

-- The cases of the `switch` that do nothing are the deals that are not counted.
unfoldable pub is_counted : ℤ → StateMarketDeal → Bool
is_counted current d =
    if d.state.sector_start_epoch == negsuc 0
    then false
    else if not (d.state.slash_epoch == negsuc 0)
    then false
    else if ltb_ℤ d.proposal.end_epoch current
    then false
    else true

-- `elapsedSinceStartEpoch < span`
unfoldable pub is_within : ℕ → ℤ → StateMarketDeal → Bool
is_within span current d = ltb_ℤ (sub64 current d.proposal.start_epoch) (pos span)

unfoldable pub add_if : Bool → ℤ → ℤ → ℤ
add_if b n a = if b then add64 a n else a

-- The counts of the provider after one more deal.
unfoldable pub add_deal : ℤ → StateMarketDeal → DealCounts → DealCounts
unfolding add_if
add_deal current d c =
    let size = d.proposal.piece_size in
    let day = is_within fil_epoch_day current d in
    let week = is_within fil_epoch_week current d in
    record {
      count = add64 c.count (pos 1);
      bytes = add64 c.bytes size;
      count_within_day = add_if day (pos 1) c.count_within_day;
      bytes_within_day = add_if day size c.bytes_within_day;
      count_within_week = add_if week (pos 1) c.count_within_week;
      bytes_within_week = add_if week size c.bytes_within_week;
    }

-- The `default` case.
unfoldable pub count_deal : ℤ → StateMarketDeal → Tally → Tally
unfolding add_if
count_deal current d t =
    let provider = d.proposal.provider in
    record t {
      total_deal_count = add64 t.total_deal_count (pos 1);
      total_deal_count_within_day =
          add_if (is_within fil_epoch_day current d) (pos 1) t.total_deal_count_within_day;
      total_deal_count_within_week =
          add_if (is_within fil_epoch_week current d) (pos 1) t.total_deal_count_within_week;
      deal_count_by_participant =
          insert provider
            (add_deal current d (get_deal_counts t.deal_count_by_participant provider))
            t.deal_count_by_participant;
    }

-- `!ok || dr.Deal.Proposal.StartEpoch > lp.epoch`
unfoldable pub is_later : ℤ → Option LatestPiece → Bool
is_later start none = true
is_later start (some lp) = ltb_ℤ lp.epoch start

-- What follows the `switch`, for every deal.
unfoldable pub note_piece : StateMarketDeal → Dict String LatestPiece → Dict String LatestPiece
unfolding is_later
note_piece d latest =
    let provider = d.proposal.provider in
    if is_later d.proposal.start_epoch (lookup provider latest)
    then insert provider (record { epoch = d.proposal.start_epoch; cid = d.proposal.piece_cid })
        latest
    else latest

unfoldable pub take_deal : ℤ → StateMarketDeal → Tally → Tally
take_deal current d t =
    let counted = if is_counted current d then count_deal current d t else t in
    record counted {
      latest_piece_by_participant = note_piece d counted.latest_piece_by_participant;
    }

-- What the `select` receives: the end of the context, or a result of the channel. A list of these
-- that ends stands for the channel being closed.
pub data Received : Type 0 where
  cancelled : Error → Received
  deal_result : StateMarketDealResult → Received

pub data Scan : Type 0 where
  completed : Tally → Scan
  failed : Error → Scan
  nil_dereference : Scan

-- the loop of `refresh`
unfoldable pub scan : ℤ → List Received → Tally → Scan
unfolding take_deal
scan current [] t = completed t
scan current (cancelled x ∷ rest) t = failed x
scan current (deal_result r ∷ rest) t = elim r.error [
  | some x ↦ failed x
  | none ↦ elim r.deal [
    | none ↦ nil_dereference
    | some d ↦ scan current rest (take_deal current d t)
  ]
]
