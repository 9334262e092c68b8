-- ===== src/Client.antt =====
-- The client, python/src/roar_sdk/client.py. Identifiers that are drawn and readings of the clock
-- are arguments; the transports, which put a message on the wire, are not modelled.
pub mod Delivery
mod Tests
use roar_protocol.Base.{ℕ, String, Bool, Option, none, some, List, [], if◌then◌else◌, nonempty}
use roar_protocol.Base.Dict.{Dict, lookup, contains}
use roar_protocol.Json.{Json}
use roar_protocol.Types.{AgentIdentity, AgentCard, DiscoveryEntry, MessageIntent, RoarMessage}
use roar_protocol.Types.Directory
use roar_protocol.Types.Directory.{Directory, find_entry, search, list_all}
use roar_protocol.Types.Message.{sign}

pub record Client : Type 0 where
  pub identity : AgentIdentity
  pub signing_secret : String
  pub directory : Directory

unfoldable pub register_card : AgentCard → ℕ → ℕ → Client → Client × DiscoveryEntry
register_card card registered_at last_seen c =
    let (d, entry) = Directory.register card registered_at last_seen c.directory in
    (record c { directory = d }, entry)

unfoldable pub discover : Option String → Client → List DiscoveryEntry
discover none c = list_all c.directory
discover (some capability) c =
    if nonempty capability then search capability c.directory else list_all c.directory

-- `AgentIdentity(did=did, display_name="unknown")`: an empty DID is replaced by one that is drawn
abbrev pub unknown_agent : String → String → AgentIdentity
unknown_agent did drawn = record {
  did = if nonempty did then did else drawn;
  display_name = "unknown";
  agent_type = "agent";
  capabilities = [];
  version = "1.0";
  public_key = none;
}

abbrev pub recipient : String → String → Client → AgentIdentity
recipient did drawn c = elim (find_entry did c.directory) [
  | none ↦ unknown_agent did drawn
  | some entry ↦ entry.agent_card.identity
]

-- What is drawn or read for a message: its id, a DID, the time of the message and of its signature.
pub record Drawn : Type 0 where
  pub id : String
  pub did : String
  pub created_at : ℕ
  pub signed_at : ℕ

abbrev pub dict_or : Option (Dict Json) → Dict Json
dict_or none = []
dict_or (some d) = d

abbrev pub unsigned_message :
    String → MessageIntent → Dict Json → Option (Dict Json) → Drawn → Client → RoarMessage
unsigned_message to intent content context drawn c = record {
  roar = "1.0";
  id = drawn.id;
  from_identity = c.identity;
  to_identity = recipient to drawn.did c;
  intent = intent;
  payload = content;
  context = dict_or context;
  auth = [];
  timestamp = drawn.created_at;
}

pub data TransportType : Type 0 where
  stdio http websocket grpc : TransportType

abbrev pub transport_text : TransportType → String
transport_text stdio = "stdio"
transport_text http = "http"
transport_text websocket = "websocket"
transport_text grpc = "grpc"

pub record ConnectionConfig : Type 0 where
  pub transport : TransportType
  pub url : String
  pub auth_method : String
  pub secret : String
  pub timeout_ms : ℕ

abbrev pub get_text : String → String → Dict String → String
get_text k default d = elim (lookup k d) [ none ↦ default | some v ↦ v ]

unfoldable pub connect : String → TransportType → Client → ConnectionConfig
connect agent_id transport c = record {
  transport = transport;
  url = elim (find_entry agent_id c.directory) [
    | none ↦ ""
    | some entry ↦
        let endpoints = entry.agent_card.endpoints in
        get_text (transport_text transport) (get_text "http" "" endpoints) endpoints
  ];
  auth_method = "hmac";
  secret = c.signing_secret;
  timeout_ms = 30_000;
}

unfoldable pub best_transport : String → Client → TransportType
best_transport agent_id c = elim (find_entry agent_id c.directory) [
  | none ↦ http
  | some entry ↦
      let endpoints = entry.agent_card.endpoints in
      if contains "websocket" endpoints
      then websocket
      else if contains "http" endpoints
      then http
      else if contains "stdio" endpoints
      then stdio
      else http
]

-- What `send_remote` hands to the transports, or that it raises `ConnectionError` since it has no
-- address.
pub data Dispatch : Type 0 where
  no_endpoint : Dispatch
  dispatched : ConnectionConfig → RoarMessage → Dispatch

abbrev pub transport_or : Option TransportType → TransportType → TransportType
transport_or none t = t
transport_or (some t) _ = t

module _ (dumps : Json → String) (hexdigest : String → String → String) where
  unfoldable pub send :
      String → MessageIntent → Dict Json → Option (Dict Json) → Drawn → Client → RoarMessage
  send to intent content context drawn c =
      let m = unsigned_message to intent content context drawn c in
      if nonempty c.signing_secret
      then sign dumps hexdigest c.signing_secret drawn.signed_at m
      else m

  unfoldable pub send_remote :
      String
      → MessageIntent
      → Dict Json
      → Option (Dict Json)
      → Option TransportType
      → Drawn
      → Client
      → Dispatch
  send_remote to intent content context transport drawn c =
      let m = send to intent content context drawn c in
      let config = connect to (transport_or transport (best_transport to c)) c in
      if nonempty config.url then dispatched config m else no_endpoint
