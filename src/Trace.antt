-- ===== src/Trace.antt =====
-- Network calls as a log: each operation returns its value and the calls that it made, in order.
use heyfil.Base.{String, Option, List, [], ◌++◌}
use heyfil.Base.Result.{Result, ok, err}
use heyfil.Platform.{Platform, AddrInfo, HttpRequest}

module _ ⦃p : Platform⦄ where
  pub data Call : Type 0 where
    -- a method of the FileCoin API with its parameters (`none` is nil)
    rpc : String → List (Option String) → Call
    -- a request to the indexer
    http : HttpRequest → Call
    connect_to : AddrInfo p.Multiaddr → Call
    open_stream : String → String → Call
    -- a request over a stream to a peer on a protocol
    stream_get : AddrInfo p.Multiaddr → String → HttpRequest → Call

  abbrev pub Log : Type 0 → Type 0
  Log A = A × List Call

  infixl 5 ◌>>=◌
  abbrev pub ◌>>=◌ : {A B : Type 0} → Log A → (A → Log B) → Log B
  m >>= f = ((f m.0).0, m.1 ++ (f m.0).1)

  abbrev pub pure : {A : Type 0} → A → Log A
  pure a = (a, [])

  -- Goes on only without an error.
  abbrev pub and_then : {A B : Type 0} → Result A → (A → Log (Result B)) → Log (Result B)
  and_then (ok a) f = f a
  and_then (err e) f = (err e, [])
