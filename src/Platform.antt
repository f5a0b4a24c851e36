-- ===== src/Platform.antt =====
-- What the program takes from other code: the types and pure functions of go-cid, go-multiaddr,
-- go-libp2p and the JSON-RPC client (`Platform`), and the answers of the network (`Net`).
use heyfil.Base.{ℕ, String, Bool, Option, List}
use heyfil.Base.Int.{ℤ}
use heyfil.Base.Result.{Error, Result}

-- `peer.AddrInfo` of go-libp2p. A `peer.ID` and a `protocol.ID` are Go strings.
pub record AddrInfo (Multiaddr : Type 0) : Type 0 where
  pub id : String
  pub addrs : List Multiaddr

-- StateMinerInfoResp, Claim and StateMinerPowerResp of fil_client.go
pub record StateMinerInfoResp : Type 0 where
  pub peer_id : String
  pub multiaddrs : List String

pub record Claim : Type 0 where
  pub quality_adj_power : String
  pub raw_byte_power : String

pub record StateMinerPowerResp : Type 0 where
  pub has_min_power : Bool
  pub miner_power : Claim
  pub total_power : Claim

pub record ChainHead : Type 0 where
  pub height : ℤ

-- TransportsQueryResponse of boost_client.go, and the struct of its list
pub record TransportProtocol (Multiaddr : Type 0) : Type 0 where
  pub name : String
  pub addresses : List Multiaddr

pub record TransportsQueryResponse (Multiaddr : Type 0) : Type 0 where
  pub protocols : List (TransportProtocol Multiaddr)

pub record HttpRequest : Type 0 where
  pub method : String
  pub url : String
  pub body : List ℕ

-- The status, and what reading the whole body returns.
pub record HttpResponse : Type 0 where
  pub status_code : ℕ
  pub body : Result (List ℕ)

pub record Platform : Type 1 where
  pub Multiaddr : Type 0
  pub Cid : Type 0
  pub Time : Type 0
  pub Stream : Type 0
  pub Host : Type 0
  pub Ticker : Type 0
  -- `libp2p.New()`, and `time.NewTicker` of a number of seconds
  pub new_host : Result Host
  pub new_ticker : ℕ → Ticker
  -- a `*jsonrpc.RPCResponse`
  pub RpcResponse : Type 0
  -- `resp.Error`, as the error that it is
  pub rpc_failure : RpcResponse → Option Error
  -- `resp.GetObject` at each type that the program decodes
  pub get_miners : RpcResponse → Result (List String)
  pub get_miner_info : RpcResponse → Result StateMinerInfoResp
  pub get_miner_power : RpcResponse → Result StateMinerPowerResp
  pub get_chain_head : RpcResponse → Result ChainHead
  -- `id.String()` of a `peer.ID`
  pub peer_string : String → String
  -- `peer.Decode`, `base64.StdEncoding.DecodeString`, `multiaddr.NewMultiaddrBytes`
  pub peer_decode : String → Result String
  pub base64_decode : String → Result (List ℕ)
  pub new_multiaddr_bytes : List ℕ → Result Multiaddr
  pub multiaddr_bytes : Multiaddr → List ℕ
  -- `peer.AddrInfoFromP2pAddr` and `peer.AddrInfoToP2pAddrs`
  pub addr_info_from_p2p_addr : Multiaddr → Result (AddrInfo Multiaddr)
  pub addr_info_to_p2p_addrs : AddrInfo Multiaddr → Result (List Multiaddr)
  -- `cid.Undef`, `Equals`, `cid.Decode` and `Bytes`
  pub cid_undef : Cid
  pub cid_equals : Cid → Cid → Bool
  pub cid_decode : List ℕ → Result Cid
  pub cid_bytes : Cid → List ℕ
  -- `reg.TypeFromReader` with the transports schema: `none` is a value of another type
  pub type_from_reader : Stream → Result (Option (TransportsQueryResponse Multiaddr))
  -- `cbor.Marshal` of an array of a tag 42 with its bytes, an array of byte strings and the
  -- byte string of one zero
  pub cbor_marshal : (tag : ℕ) → List ℕ → List (List ℕ) → List ℕ → Result (List ℕ)

module _ ⦃p : Platform⦄ where
  -- The answers that the calls made during one check get.
  pub record Net : Type 0 where
    -- `hf.c.Call(ctx, method, params...)`
    pub call : String → List (Option String) → Result p.RpcResponse
    -- `http.NewRequestWithContext` refuses some URLs
    pub new_request : HttpRequest → Result HttpRequest
    -- `hf.httpClient.Do`
    pub http_do : HttpRequest → Result HttpResponse
    -- `h.Connect`: `none` is success
    pub connect : AddrInfo p.Multiaddr → Option Error
    -- `h.Peerstore().GetProtocols`
    pub get_protocols : String → Result (List String)
    -- `h.Peerstore().Get(id, "AgentVersion")`: `none` is a value that is no string
    pub get_agent_version : String → Result (Option String)
    -- `h.NewStream(ctx, id, protocol)`
    pub new_stream : String → String → Result p.Stream
    -- `client.Do` of an HTTP client whose connections are streams to the peer on the protocol
    pub stream_do : AddrInfo p.Multiaddr → String → HttpRequest → Result HttpResponse
    -- `time.Now()`
    pub now : p.Time
