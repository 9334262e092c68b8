-- ===== src/Heartbeat.antt =====
-- The liveness of agents at a hub, `HeartbeatTracker` of python/src/roar_sdk/heartbeat.py. Times are
-- whole seconds, and one pass over the agents reads the clock once. The callback of `reap` is the
-- caller's: the DIDs that it is called with are the list that `reap` answers.
pub mod Reaping
mod Tests
use roar_protocol.Base.{
  ℕ, ◌+◌, String, Bool, true, false, not, Option, none, some, List, [], ◌∷◌, ltb, nat_eq,
  if◌then◌else◌,
}
use roar_protocol.Base.Dict.{Dict, lookup, insert, erase, erase_all, values}
use roar_protocol.Json.{Json}

pub record AgentPulse : Type 0 where
  pub did : String
  pub last_beat : ℕ
  pub consecutive_misses : ℕ
  pub metadata : Dict Json

pub record Tracker : Type 0 where
  pub timeout : ℕ
  pub agents : Dict AgentPulse

-- `age_seconds < timeout`; a pulse that never beat is infinitely old
abbrev pub is_young : ℕ → ℕ → AgentPulse → Bool
is_young timeout now p = if nat_eq p.last_beat 0 then false else ltb now (p.last_beat + timeout)

unfoldable pub init : ℕ → Tracker
init timeout = record { timeout = timeout; agents = [] }

-- `d.update(e)`
unfoldable pub update : Dict Json → Dict Json → Dict Json
update d [] = d
update d ((k, v) ∷ e) = update (insert k v d) e

-- the pulse that a beat writes to
abbrev pub pulse_of : String → Tracker → AgentPulse
pulse_of did t = elim (lookup did t.agents) [
  | none ↦ record { did = did; last_beat = 0; consecutive_misses = 0; metadata = [] }
  | some p ↦ p
]

abbrev pub given : Option (Dict Json) → Dict Json
given none = []
given (some d) = d

-- the pulse after the beat
abbrev pub beaten : ℕ → Option (Dict Json) → AgentPulse → AgentPulse
beaten now metadata p = record p {
  last_beat = now;
  consecutive_misses = 0;
  metadata = update p.metadata (given metadata);
}

unfoldable pub beat : ℕ → String → Option (Dict Json) → Tracker → Tracker
beat now did metadata t = record t {
  agents = insert did (beaten now metadata (pulse_of did t)) t.agents;
}

unfoldable pub is_alive : ℕ → String → Tracker → Bool
is_alive now did t = elim (lookup did t.agents) [ none ↦ false | some p ↦ is_young t.timeout now p ]

unfoldable pub get_pulse : String → Tracker → Option AgentPulse
get_pulse did t = lookup did t.agents

-- the pulses that satisfy a test, in order
unfoldable pub pulses_where : (AgentPulse → Bool) → Dict AgentPulse → List AgentPulse
pulses_where p [] = []
pulses_where p ((k, v) ∷ d) = if p v then v ∷ pulses_where p d else pulses_where p d

unfoldable pub alive_agents : ℕ → Tracker → List AgentPulse
alive_agents now t = pulses_where (is_young t.timeout now) t.agents

abbrev pub is_old : ℕ → ℕ → AgentPulse → Bool
is_old timeout now p = not (is_young timeout now p)

unfoldable pub dead_agents : ℕ → Tracker → List AgentPulse
dead_agents now t = pulses_where (is_old t.timeout now) t.agents

unfoldable pub all_agents : Tracker → List AgentPulse
all_agents t = values t.agents

-- the DIDs of the dead, as `reap` lists them
unfoldable pub dead_dids : ℕ → ℕ → Dict AgentPulse → List String
dead_dids timeout now [] = []
dead_dids timeout now ((k, p) ∷ d) =
    if is_old timeout now p then p.did ∷ dead_dids timeout now d else dead_dids timeout now d

unfoldable pub reap : ℕ → Tracker → Tracker × List String
reap now t =
    let dead = dead_dids t.timeout now t.agents in
    (record t { agents = erase_all dead t.agents }, dead)

unfoldable pub unregister : String → Tracker → Tracker
unregister did t = record t { agents = erase did t.agents }
