-- ===== src/Deal.antt =====
-- The market deals of fil_client.go.
use heyfil.Base.{String, Option}
use heyfil.Base.Int.{ℤ}
use heyfil.Base.Result.{Error}

pub record Proposal : Type 0 where
  pub piece_cid : String
  pub provider : String
  pub start_epoch : ℤ
  pub end_epoch : ℤ
  pub piece_size : ℤ

pub record DealState : Type 0 where
  pub sector_start_epoch : ℤ
  pub slash_epoch : ℤ

pub record StateMarketDeal : Type 0 where
  pub proposal : Proposal
  pub state : DealState

pub record StateMarketDealResult : Type 0 where
  pub key : String
  pub deal : Option StateMarketDeal
  pub error : Option Error
