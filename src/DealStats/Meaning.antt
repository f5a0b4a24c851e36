-- ===== src/DealStats/Meaning.antt =====
-- What it means for a deal to be live and to be recent, in exact integers, against the tests of the
-- pass over the deals.
use heyfil.Base.{
  count_if, ◌==◌, nat_eq, string_eq, ℕ, ◌≡◌, refl, Bool, not, ◌&&◌, List, [], ◌∷◌, arith,
}
use heyfil.Base.Int.{int_eq, pos, ltb_ℤ, negsuc, FitsInt64, wrap64_of_fits, ◌+ℤ◌, sub64, ◌-ℤ◌, ℤ}
use heyfil.DealStats.{is_counted, is_within}
use heyfil.Deal.{StateMarketDeal}

-- At the height, the deal has entered a sector, is not slashed, and has not ended before.
abbrev pub is_live : ℤ → StateMarketDeal → Bool
is_live height d =
    not (d.state.sector_start_epoch == negsuc 0)
    && (d.state.slash_epoch == negsuc 0 && not (ltb_ℤ d.proposal.end_epoch height))

-- The start of the deal is later than so many epochs before the height; it may be after the height.
abbrev pub starts_after : ℕ → ℤ → StateMarketDeal → Bool
starts_after epochs height d = ltb_ℤ height (d.proposal.start_epoch +ℤ pos epochs)

-- The epochs between the start of the deal and the height fit an int64.
abbrev pub Near : ℤ → StateMarketDeal → Type 0
Near height d = FitsInt64 (height -ℤ d.proposal.start_epoch)

abbrev pub AllNear : ℤ → List StateMarketDeal → Type 0
AllNear height [] = Unit
AllNear height (d ∷ ds) = Near height d × AllNear height ds

pub is_counted-is_live : (height : ℤ) (d : StateMarketDeal) → is_counted height d ≡ is_live height d
unfolding is_counted
is_counted-is_live height d = ground arith

ltb_ℤ-sub : (a b : ℤ) (n : ℕ) → ltb_ℤ (a -ℤ b) (pos n) ≡ ltb_ℤ a (b +ℤ pos n)
unfolding ◌-ℤ◌ ◌+ℤ◌
ltb_ℤ-sub (pos a) (pos b) n = ground arith
ltb_ℤ-sub (pos a) (negsuc b) n = ground arith
ltb_ℤ-sub (negsuc a) (pos b) n = ground arith
ltb_ℤ-sub (negsuc a) (negsuc b) n = ground arith

pub is_within-starts_after :
    (span : ℕ) (height : ℤ) (d : StateMarketDeal)
    → Near height d
    → is_within span height d ≡ starts_after span height d
unfolding is_within sub64
is_within-starts_after span height d near =
    rw (wrap64_of_fits (height -ℤ d.proposal.start_epoch) near)
      (ltb_ℤ-sub height d.proposal.start_epoch span)

-- Among near deals, so many are within a span as start after it.
pub count-starts_after :
    (span : ℕ) (height : ℤ) (chosen : StateMarketDeal → Bool) (ds : List StateMarketDeal)
    → AllNear height ds
    → count_if (λ d. chosen d && is_within span height d) ds
      ≡ count_if (λ d. chosen d && starts_after span height d) ds
count-starts_after span height chosen [] near = refl
count-starts_after span height chosen (d ∷ ds) (near, rest) =
    rw (is_within-starts_after span height d near, count-starts_after span height chosen ds rest)
