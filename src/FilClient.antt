-- ===== src/FilClient.antt =====
-- fil_client.go: the calls of the FileCoin API, the head protocol and the head of a publisher.
pub mod HeadPattern
pub mod Snapshot
pub mod Tools
use heyfil.Base.{
  is_nil, if◌then◌else◌, ◌==◌, nat_eq, string_eq, String, ◌&&◌, Option, none, some, List, [], ◌∷◌,
}
use heyfil.Base.Result.{Result, ok, err, ◌>>=◌}
use heyfil.Platform.{
  Platform, Net, AddrInfo, StateMinerInfoResp, StateMinerPowerResp, ChainHead, HttpRequest,
}
use heyfil.Trace
use heyfil.Trace.{Log, Call, rpc, stream_get, and_then}

abbrev pub noop_url : String
noop_url = "http://publisher.invalid/head"

module _ ⦃p : Platform⦄ where
  -- The `switch` over `hf.c.Call`: a failed call, an error in the response, or its object.
  unfoldable pub answer :
      {A : Type 0} → (p.RpcResponse → Result A) → Result p.RpcResponse → Result A
  answer get (err e) = err e
  answer get (ok resp) = elim (p.rpc_failure resp) [ some e ↦ err e | none ↦ get resp ]

  unfoldable pub state_list_miners : Net → Log (Result (List String))
  unfolding answer
  state_list_miners net =
      let params : List (Option String) = none ∷ [] in
      (
        answer p.get_miners (net.call "Filecoin.StateListMiners" params),
        rpc "Filecoin.StateListMiners" params ∷ [],
      )

  unfoldable pub state_miner_power : Net → String → Log (Result StateMinerPowerResp)
  unfolding answer
  state_miner_power net mid =
      let params : List (Option String) = some mid ∷ none ∷ [] in
      (
        answer p.get_miner_power (net.call "Filecoin.StateMinerPower" params),
        rpc "Filecoin.StateMinerPower" params ∷ [],
      )

  unfoldable pub chain_head : Net → Log (Result ChainHead)
  unfolding answer
  chain_head net =
      (answer p.get_chain_head (net.call "Filecoin.ChainHead" []), rpc "Filecoin.ChainHead" [] ∷ [])

  -- the loop over `mi.Multiaddrs`
  unfoldable pub decode_addrs : List String → Result (List p.Multiaddr)
  decode_addrs [] = ok []
  decode_addrs (s ∷ rest) = p.base64_decode s >>= λ mb.
      p.new_multiaddr_bytes mb >>= λ addr. decode_addrs rest >>= λ addrs. ok (addr ∷ addrs)

  unfoldable pub addr_info_of : StateMinerInfoResp → Result (Option (AddrInfo p.Multiaddr))
  unfolding decode_addrs
  addr_info_of mi =
      if mi.peer_id == "" && is_nil mi.multiaddrs
      then ok none
      else (if mi.peer_id == "" then ok "" else p.peer_decode mi.peer_id) >>= λ id.
          decode_addrs mi.multiaddrs >>= λ addrs. ok (some (record { id = id; addrs = addrs }))

  unfoldable pub state_miner_info : Net → String → Log (Result (Option (AddrInfo p.Multiaddr)))
  unfolding answer addr_info_of
  state_miner_info net mid =
      let params : List (Option String) = some mid ∷ none ∷ [] in
      (
        answer (λ resp. p.get_miner_info resp >>= addr_info_of)
            (net.call "Filecoin.StateMinerInfo" params),
        rpc "Filecoin.StateMinerInfo" params ∷ [],
      )

  abbrev pub head_request : HttpRequest
  head_request = record { method = "GET"; url = noop_url; body = [] }

  -- The status of the response is not looked at.
  unfoldable pub get_head : Net → AddrInfo p.Multiaddr → String → Log (Result p.Cid)
  get_head net ai pid = and_then (net.new_request head_request) λ req. (
    net.stream_do ai pid req >>= λ resp.
        resp.body >>= λ c. if is_nil c then ok p.cid_undef else p.cid_decode c,
    stream_get ai pid req ∷ [],
  )
