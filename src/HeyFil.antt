-- ===== src/HeyFil.antt =====
-- The state of `heyFil` (heyfil.go) that its goroutines share, with the files under the store path.
use heyfil.Base.{String, Option, List}
use heyfil.Base.Dict.{Dict}
use heyfil.Base.Result.{Error}
use heyfil.Platform.{Platform}
use heyfil.Options.{Options}
use heyfil.DealCounts.{DealCounts}
use heyfil.Target.{Target}
use heyfil.Metrics.{Metrics}

-- `jsonrpc.NewClient` and `NewClientWithOpts`, with the custom headers.
pub record RpcClient : Type 0 where
  pub endpoint : String
  pub headers : List (String × String)

module _ ⦃p : Platform⦄ where
  -- The channels are those of `Service`, and the locks are left out. A server is the address that it
  -- listens on, once it is started. `files` maps a path to what is written there.
  pub record HeyFil : Type 0 where
    pub options : Options
    pub client : RpcClient
    pub metrics_server : Option String
    pub api_server : Option String
    pub targets : Dict String Target
    pub recent_pieces : Dict String String
    pub metrics : Metrics
    pub deal_count_by_participant : Dict String DealCounts
    pub latest_refresh_err : Option Error
    pub files : Dict String String
