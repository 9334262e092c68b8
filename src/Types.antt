-- ===== src/Types.antt =====
-- The wire types of python/src/roar_sdk/types.py and the in-memory `AgentDirectory`. Identifiers
-- that the code draws from `uuid4` and times that it reads from the clock are arguments.
pub mod Directory
pub mod Message
pub mod Samples
pub mod Sqlite
use roar_protocol.Json.{Json, Number}
use roar_protocol.Base.{ℕ, String, Option, List}
use roar_protocol.Base.Dict.{Dict}

pub record AgentIdentity : Type 0 where
  pub did : String
  pub display_name : String
  pub agent_type : String
  pub capabilities : List String
  pub version : String
  pub public_key : Option String

pub record AgentCapability : Type 0 where
  pub name : String
  pub description : String
  pub input_schema : Dict Json
  pub output_schema : Dict Json

pub record AgentCard : Type 0 where
  pub identity : AgentIdentity
  pub description : String
  pub skills : List String
  pub channels : List String
  pub endpoints : Dict String
  pub declared_capabilities : List AgentCapability
  pub metadata : Dict Json
  pub attestation : Option String

pub record DiscoveryEntry : Type 0 where
  pub agent_card : AgentCard
  pub registered_at : Number
  pub last_seen : Number
  pub hub_url : String

pub data MessageIntent : Type 0 where
  execute delegate update ask respond notify discover : MessageIntent

pub record RoarMessage : Type 0 where
  pub roar : String
  pub id : String
  pub from_identity : AgentIdentity
  pub to_identity : AgentIdentity
  pub intent : MessageIntent
  pub payload : Dict Json
  pub context : Dict Json
  pub auth : Dict Json
  pub timestamp : ℕ
