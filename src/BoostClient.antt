-- ===== src/BoostClient.antt =====
-- boost_client.go: the query for a provider's retrieval transports.
use heyfil.Base.{ℕ, String, Option, none, some, List, [], ◌∷◌}
use heyfil.Base.Result.{Error, Result, ok, err, other, ◌>>=◌}
use heyfil.Platform.{Platform, Net, TransportsQueryResponse}
use heyfil.Trace.{Log, open_stream}

abbrev pub transports_protocol_id : String
transports_protocol_id = "/fil/retrieval/transports/1.0.0"

abbrev pub transports_ipld_schema : String
transports_ipld_schema =
    "\ntype Multiaddr bytes\ntype Protocol struct {\n  Name String\n  Addresses [Multiaddr]\n}\ntype TransportsQueryResponse struct {\n  Protocols [Protocol]\n}"

module _ ⦃p : Platform⦄ where
  -- The converters between the bytes of the schema and addresses: a value that is no address is
  -- `none`.
  unfoldable pub address_of_bytes : List ℕ → Result p.Multiaddr
  address_of_bytes b = elim (p.new_multiaddr_bytes b) [ err e ↦ err e | ok ma ↦ ok ma ]

  unfoldable pub bytes_of_address : Option p.Multiaddr → Result (List ℕ)
  bytes_of_address none = err (other "expected *Multiaddr value")
  bytes_of_address (some ma) = ok (p.multiaddr_bytes ma)

  -- What the registry answers to a schema, the name of a type in it, and the converters.
  abbrev Register : Type 0
  Register =
      String
      → String
      → (List ℕ → Result p.Multiaddr)
      → (Option p.Multiaddr → Result (List ℕ))
      → Option Error

  -- An error is a panic before `main`.
  unfoldable pub init : Register → Option Error
  init register =
      register transports_ipld_schema "TransportsQueryResponse" address_of_bytes bytes_of_address

  -- The text of the error leaves the value out.
  abbrev pub expect_transports :
      Option (TransportsQueryResponse p.Multiaddr) → Result (TransportsQueryResponse p.Multiaddr)
  expect_transports none = err (other "expected TransportsQueryResponse but got another value")
  expect_transports (some resp) = ok resp

  unfoldable pub query_transports :
      Net → String → Log (Result (TransportsQueryResponse p.Multiaddr))
  query_transports net id = (
    net.new_stream id transports_protocol_id >>= λ stream.
        p.type_from_reader stream >>= expect_transports,
    open_stream id transports_protocol_id ∷ [],
  )
