-- ===== src/Tests/World.antt =====
-- A small network and a small state, on which the tests run.
use heyfil.Base.{
  if◌then◌else◌, ◌==◌, nat_eq, string_eq, ℕ, String, false, Option, none, some, List, [], ◌∷◌,
}
use Prim.Native.String
use heyfil.Base.Int.{ℤ, pos, negsuc}
use heyfil.Base.Dict.{Dict}
use heyfil.Base.Result.{Error, rpc_error, other, Result, ok, err}
use heyfil.Platform.{Platform, Net, StateMinerInfoResp, StateMinerPowerResp, ChainHead}
use heyfil.Options.{Options, default_options}
use heyfil.Deal.{StateMarketDeal}
use heyfil.DealStats.{Received, deal_result}
use heyfil.Target.{Target, new_target, status_ok, status_unindexed}
use heyfil.Metrics.{Metrics}
use heyfil.Metrics.Instruments.{Meter}
use heyfil.HeyFil.{HeyFil}
use heyfil.Store.{Storage}
use heyfil.Refresh.{Answers}

-- A response of the FileCoin API, with what each of its decodings gives.
pub record Reply : Type 0 where
  pub failure : Option Error
  pub miners : Result (List String)
  pub info : Result StateMinerInfoResp
  pub power : Result StateMinerPowerResp
  pub head : Result ChainHead

abbrev pub shapeless : Error
shapeless = other "cannot decode"

-- Addresses are texts, CIDs are numbers with 0 undefined, and a stream is one that has nothing to read.
instance abbrev pub demo : Platform
demo = record {
  Multiaddr = String;
  Cid = ℕ;
  Time = ℕ;
  Stream = ℕ;
  Host = ℕ;
  Ticker = ℕ;
  new_host = ok 7;
  new_ticker = λ seconds. seconds;
  RpcResponse = Reply;
  rpc_failure = λ r. r.failure;
  get_miners = λ r. r.miners;
  get_miner_info = λ r. r.info;
  get_miner_power = λ r. r.power;
  get_chain_head = λ r. r.head;
  peer_string = λ id. id;
  peer_decode = λ s. ok s;
  base64_decode = λ s. ok (1 ∷ []);
  new_multiaddr_bytes = λ bytes. ok "/ip4/10.0.0.1";
  multiaddr_bytes = λ addr. 1 ∷ [];
  addr_info_from_p2p_addr = λ addr. err shapeless;
  addr_info_to_p2p_addrs = λ ai. ok ai.addrs;
  cid_undef = 0;
  cid_equals = λ a b. a == b;
  cid_decode = λ bytes. ok 5;
  cid_bytes = λ c. c ∷ [];
  type_from_reader = λ stream. ok none;
  cbor_marshal = λ tag cid addrs extra. ok cid;
}

abbrev quiet : Reply
quiet = record {
  failure = none;
  miners = err shapeless;
  info = err shapeless;
  power = err shapeless;
  head = err shapeless;
}

abbrev answer_call : String → List (Option String) → Result Reply
answer_call method params =
    if method == "Filecoin.StateMinerInfo"
    then ok (record quiet { info = ok (record { peer_id = "peer1"; multiaddrs = "AQ==" ∷ [] }) })
    else if method == "Filecoin.ChainHead"
    then ok (record quiet { head = ok (record { height = pos 50000 }) })
    else err (rpc_error (pos 1) "actor not found")

-- One miner whose peer publishes on the topic of the default options.
abbrev pub net : Net
net = record {
  call = answer_call;
  new_request = λ r. ok r;
  http_do = λ r. ok (record { status_code = 200; body = ok [] });
  connect = λ ai. none;
  get_protocols = λ id. ok ("/ipfs/id/1.0.0" ∷ "/legs/head/indexer/ingest/mainnet/0.0.1" ∷ []);
  get_agent_version = λ id. ok (some "boost-2.1.0+git.abc");
  new_stream = λ id protocol. ok 3;
  stream_do = λ ai protocol r. ok (record { status_code = 200; body = ok (98 ∷ []) });
  now = 12;
}

abbrev pub opts : Options
opts = default_options

abbrev pub miner : Target
miner = new_target "f01000"

abbrev pub targets : Dict String Target
targets =
    ("f02000", record (new_target "f02000") { status = status_unindexed })
    ∷ ("f01000", record miner { status = status_ok })
    ∷ []

abbrev deal_of : (provider piece : String) → (start slash : ℤ) → StateMarketDeal
deal_of provider piece start slash = record {
  proposal = record {
    piece_cid = piece;
    provider = provider;
    start_epoch = start;
    end_epoch = pos 90000;
    piece_size = pos 1024;
  };
  state = record { sector_start_epoch = start; slash_epoch = slash };
}

-- A deal of an hour ago, one of three days ago, and one that was slashed.
abbrev pub recent_deal : StateMarketDeal
recent_deal = deal_of "f01000" "piece1" (pos 49880) (negsuc 0)

abbrev pub older_deal : StateMarketDeal
older_deal = deal_of "f01000" "piece2" (pos 41360) (negsuc 0)

abbrev pub slashed_deal : StateMarketDeal
slashed_deal = deal_of "f02000" "piece3" (pos 49000) (pos 49500)

abbrev receive : String → StateMarketDeal → Received
receive key d = deal_result (record { key = key; deal = some d; error = none })

abbrev pub stream : List Received
stream = receive "1" older_deal ∷ receive "2" recent_deal ∷ receive "3" slashed_deal ∷ []

abbrev pub broken_stream : List Received
broken_stream =
    receive "1" older_deal
    ∷ deal_result (record { key = "2"; deal = none; error = some shapeless })
    ∷ []

abbrev pub no_metrics : Metrics
no_metrics = record {
  has_exporter = false;
  counts_by_status = [];
  counts_by_agent_short_version = [];
  counts_by_market_protocol = [];
  counts_by_transport_protocol = [];
  total_participant_count = pos 0;
  total_deal_count = pos 0;
  total_deal_count_within_day = pos 0;
  total_deal_count_within_week = pos 0;
  total_addressable_participants_with_non_zero_deals = pos 0;
  total_addressable_participants = pos 0;
  total_participants_known_by_indexer = pos 0;
  total_deal_count_by_participants_known_to_indexer = pos 0;
  total_deal_count_within_day_by_participants_known_to_indexer = pos 0;
  total_deal_count_within_week_by_participants_known_to_indexer = pos 0;
  total_boost_participants = pos 0;
  total_participants_with_min_power = pos 0;
  total_boost_quality_adjusted_power = pos 0;
  total_boost_raw_power = pos 0;
  unindexed_targets = [];
}

abbrev pub hf : HeyFil
hf = record {
  options = opts;
  client = record { endpoint = opts.api; headers = [] };
  metrics_server = none;
  api_server = none;
  targets = targets;
  recent_pieces = ("f02000", "piece0") ∷ [];
  metrics = no_metrics;
  deal_count_by_participant = [];
  latest_refresh_err = none;
  files = [];
}

abbrev pub stored_hf : HeyFil
stored_hf = record hf { options = record opts { store_path = "/data" } }

-- The codec keeps the identifier of a target alone.
abbrev pub io : Storage
io = record {
  write_error = λ path. none;
  read_error = λ path. none;
  missing = λ path. other (String.◌++◌ "open " path);
  encode_target = λ t. ok t.id;
  decode_target = λ s. ok (new_target s);
  encode_pieces = λ rp. ok "{}";
  decode_pieces = λ s. ok [];
}

abbrev pub answers : Answers
answers = record {
  head = ok (record { height = pos 50000 });
  via_fil_tools = err shapeless;
  via_s3_snapshot = ok stream;
}

abbrev pub broken_answers : Answers
broken_answers = record answers { via_s3_snapshot = ok broken_stream }

abbrev pub meter : Meter
meter = record { new_exporter = none; make = λ name. none; register = λ gauges. none }
