-- ===== src/Announce.antt =====
-- announce.go: the announcement of a head to the indexer.
use Prim.Native.Nat.{ℕ}
use Prim.Native.String
use heyfil.Base.{ltb, if◌then◌else◌, String, List, [], ◌∷◌, map}
use heyfil.Base.Result.{Result, ok, err, other, ◌>>=◌}
use heyfil.Base.Text.{itoa}
use heyfil.Platform.{Platform, Net, AddrInfo, HttpRequest, HttpResponse}
use heyfil.Trace.{Log, http, and_then}

module _ ⦃p : Platform⦄ where
  pub record Announcement : Type 0 where
    pub cid : p.Cid
    pub addrs : List p.Multiaddr

  -- A CBOR array of the tagged CID behind a zero byte, the addresses, and extra data of one zero.
  unfoldable pub marshal_cbor : Announcement → Result (List ℕ)
  marshal_cbor a =
      p.cbor_marshal 42 (0 ∷ p.cid_bytes a.cid) (map p.multiaddr_bytes a.addrs) (0 ∷ [])

  abbrev pub announce_request : String → List ℕ → HttpRequest
  announce_request endpoint body = record {
    method = "PUT";
    url = String.◌++◌ endpoint "/ingest/announce";
    body = body;
  }

  unfoldable pub accepted : HttpResponse → Result (Unit {0})
  unfolding itoa
  accepted resp = resp.body >>= λ body.
      if ltb 299 resp.status_code
      then err (other (String.◌++◌ "unsuccessful announce: " (itoa resp.status_code)))
      else ok tt

  unfoldable pub announcement_body : AddrInfo p.Multiaddr → p.Cid → Result (List ℕ)
  unfolding marshal_cbor
  announcement_body ai head =
      p.addr_info_to_p2p_addrs ai >>= λ maddrs. marshal_cbor (record { cid = head; addrs = maddrs })

  unfoldable pub announce : Net → String → AddrInfo p.Multiaddr → p.Cid → Log (Result (Unit {0}))
  announce net endpoint ai head =
      and_then
        (announcement_body ai head >>= λ anncb. net.new_request (announce_request endpoint anncb))
        λ req. (net.http_do req >>= accepted, http req ∷ [])
