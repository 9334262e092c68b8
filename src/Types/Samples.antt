-- ===== src/Types/Samples.antt =====
-- Concrete identities, cards and messages that the tests share.
use roar_protocol.Base.{some, none, [], ◌∷◌}
use roar_protocol.Json.{str, finite}
use roar_protocol.Types.{AgentIdentity, AgentCard, DiscoveryEntry, MessageIntent, RoarMessage}

abbrev pub alice : AgentIdentity
alice = record {
  did = "did:roar:agent:alice";
  display_name = "Alice";
  agent_type = "agent";
  capabilities = "code" ∷ [];
  version = "1.0";
  public_key = some "pk";
}

abbrev pub bob : AgentIdentity
bob = record {
  did = "did:roar:agent:bob";
  display_name = "Bob";
  agent_type = "agent";
  capabilities = "review" ∷ [];
  version = "1.0";
  public_key = none;
}

abbrev pub card_of : AgentIdentity → AgentCard
card_of i = record {
  identity = i;
  description = "";
  skills = [];
  channels = [];
  endpoints = [];
  declared_capabilities = [];
  metadata = [];
  attestation = none;
}

abbrev pub entry_of : AgentIdentity → DiscoveryEntry
entry_of i = record {
  agent_card = card_of i;
  registered_at = finite 0;
  last_seen = finite 0;
  hub_url = "";
}

abbrev pub greeting : RoarMessage
greeting = record {
  roar = "1.0";
  id = "m1";
  from_identity = alice;
  to_identity = bob;
  intent = MessageIntent.ask;
  payload = ("text", str "hello") ∷ [];
  context = [];
  auth = [];
  timestamp = 100;
}
