-- ===== src/FilClient/Snapshot/Laws.antt =====
-- A pass over the deals of a snapshot: a whole one, one that is cut off, and any other.
use heyfil.Base.{
  Bool-cases, All, ◌==◌, nat_eq, string_eq, beq_of_ne, String, ◌≡◌, refl, ◌≢◌, inl, inr, List, [],
  ◌∷◌,
}
use heyfil.Base.Int.{ℤ}
use heyfil.Base.Result.{Error, Result, ok, err, ◌>>=◌, Result-cases}
use heyfil.Deal.{StateMarketDeal}
use heyfil.DealStats.{Tally, take_deal, completed, failed, nil_dereference, scan}
use heyfil.DealStats.Counts.{take_all}
use heyfil.FilClient.Snapshot.{
  Token, delim, str, Reading, eof, deal_id, other_token, failed_with, at_end, read_deals,
  read_snapshot,
}

-- The entries of a snapshot, in order.
abbrev pub Entries : Type 0
Entries = List (String × StateMarketDeal)

abbrev pub steps_of : Entries → List Reading → List Reading
steps_of [] end = end
steps_of ((key, d) ∷ es) end = record { token = ok (str key); value = ok d } ∷ steps_of es end

abbrev pub close : Reading
close = record { token = ok (delim "}"); value = err eof }

abbrev pub values : Entries → List StateMarketDeal
values [] = []
values ((key, d) ∷ es) = d ∷ values es

abbrev pub Named : Entries → Type 0
Named es = All (λ e. e.0 ≢ "") es

-- A pass over the entries, and over what follows them.
scan-steps_of :
    (current : ℤ) (es : Entries) (end : List Reading) (t : Tally)
    → Named es
    → scan current (read_deals (steps_of es end)) t
      ≡ scan current (read_deals end) (take_all current (values es) t)
unfolding read_deals deal_id take_all scan
scan-steps_of current [] end t _ = refl
scan-steps_of current ((key, d) ∷ es) end t (n, h) =
    rw (beq_of_ne key "" n) (scan-steps_of current es end (take_deal current d t) h)

-- A pass over a whole snapshot, an object whose keys are not empty, completes with the tally of all
-- its deals in their order.
pub scan-read_snapshot :
    (current : ℤ) (es : Entries) (t : Tally)
    → Named es
    → scan current
        (read_snapshot (record { first = ok (delim "{"); steps = steps_of es (close ∷ []) }))
        t
      ≡ completed (take_all current (values es) t)
unfolding read_snapshot read_deals deal_id at_end scan string_eq
scan-read_snapshot current es t h = scan-steps_of current es (close ∷ []) t h

-- A pass over a snapshot that is an object whose keys are not empty, but is cut off behind one of its
-- entries, fails.
pub scan-read_snapshot_cut :
    (current : ℤ) (es : Entries) (t : Tally)
    → Named es
    → scan current (read_snapshot (record { first = ok (delim "{"); steps = steps_of es [] })) t
      ≡ failed eof
unfolding read_snapshot read_deals scan
scan-read_snapshot_cut current es t h = scan-steps_of current es [] t h

scan-failed_with :
    (current : ℤ) (key : String) (e : Error) (t : Tally)
    → scan current (failed_with key e ∷ []) t ≡ failed e
unfolding scan
scan-failed_with current key e t = refl

scan-at_end :
    (current : ℤ) (ss : List Reading) (t : Tally) → scan current (at_end ss) t ≢ nil_dereference
unfolding at_end scan
scan-at_end current [] t = λ q. cc
scan-at_end current (s ∷ ss) t = λ q. cc

scan-read_deals :
    (current : ℤ) (ss : List Reading) (t : Tally) → scan current (read_deals ss) t ≢ nil_dereference
unfolding read_deals scan
scan-read_deals current [] t = λ q. cc
scan-read_deals current (s ∷ ss) t = elim (Result-cases (s.token >>= deal_id)) [
  | inr (e, f) ↦ rw (f, read_deals, scan) (λ q. cc)
  | inl (key, f) ↦ elim (Bool-cases (key == "")) [
    | inl g ↦ rw (f, g, read_deals) (scan-at_end current ss t)
    | inr g ↦ elim (Result-cases s.value) [
      | inr (e, k) ↦ rw (f, g, k, read_deals, scan) (λ q. cc)
      | inl (d, k) ↦
          rw (f, g, k, read_deals, scan) (scan-read_deals current ss (take_deal current d t))
    ]
  ]
]

-- Whatever a snapshot holds, a pass over it never dereferences a deal that is nil.
pub scan-read_snapshot_ne :
    (current : ℤ) (first : Result Token) (ss : List Reading) (t : Tally)
    → scan current (read_snapshot (record { first = first; steps = ss })) t ≢ nil_dereference
unfolding read_snapshot scan
scan-read_snapshot_ne current (ok (delim d)) ss t = scan-read_deals current ss t
scan-read_snapshot_ne current (ok (str s)) ss t = λ q. cc
scan-read_snapshot_ne current (ok other_token) ss t = λ q. cc
scan-read_snapshot_ne current (err x) ss t = λ q. cc
