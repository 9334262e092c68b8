-- ===== src/Heartbeat/Reaping.antt =====
-- What `reap` removes, and what it leaves.
use roar_protocol.Base.{
  ℕ, ◌+◌, ◌<◌, String, ◌≡◌, refl, true, false, not, Option, none, some, [], ◌∷◌, arith, elem,
  if◌then◌else◌, Option-cases, inl, inr, Bool-cases,
}
use roar_protocol.Base.Dict.{
  Dict, lookup, keys_where, Distinct, lookup-erase_all, elem-keys_where, lookup-insert_self,
}
use roar_protocol.Json.{Json}
use roar_protocol.Heartbeat.{
  AgentPulse, Tracker, is_young, is_old, beat, is_alive, get_pulse, dead_dids, reap, pulse_of,
  beaten,
}

-- Every pulse stands under its own DID.
abbrev pub OwnDids : Dict AgentPulse → Type 0
OwnDids [] = Unit
OwnDids ((k, p) ∷ d) = (p.did ≡ k) × OwnDids d

pub record IsValid (t : Tracker) : Type 0 where
  pub distinct : Distinct t.agents
  pub own : OwnDids t.agents

dead_dids-eq-keys_where :
    (timeout now : ℕ) (d : Dict AgentPulse)
    → OwnDids d
    → dead_dids timeout now d ≡ keys_where (is_old timeout now) d
unfolding dead_dids
dead_dids-eq-keys_where timeout now [] h = refl
dead_dids-eq-keys_where timeout now ((k, p) ∷ d) h =
    let rest = dead_dids-eq-keys_where timeout now d h.1 in
    let own = h.0 in
    elim (Bool-cases (is_old timeout now p)) [
      | inl old ↦ rw (old, own, rest)
      | inr young ↦ rw (young, rest)
    ]

elem-dead_dids :
    (j : String) (now : ℕ) (t : Tracker)
    → IsValid t
    → elem j (dead_dids t.timeout now t.agents)
      ≡ elim (lookup j t.agents) [ none ↦ false | some p ↦ is_old t.timeout now p ]
elem-dead_dids j now t v =
    rw (dead_dids-eq-keys_where t.timeout now t.agents v.own)
      (elem-keys_where j (is_old t.timeout now) t.agents v.distinct)

-- `reap` answers the DIDs of exactly the agents that are known and not alive, removes these and
-- leaves the pulse of every other; no agent is alive after it that was not before, nor the other
-- way round.
pub reap_exact :
    (now : ℕ) (j : String) (t : Tracker)
    → IsValid t
    → let (t', dead) = reap now t in
      (get_pulse j t' ≡ (if is_alive now j t then get_pulse j t else none))
      × (is_alive now j t' ≡ is_alive now j t)
      × (elem j dead ≡ elim (get_pulse j t) [ none ↦ false | some p ↦ not (is_alive now j t) ])
unfolding reap get_pulse is_alive
reap_exact now j t v =
    let dead = dead_dids t.timeout now t.agents in
    let there = elem-dead_dids j now t v in
    let left = lookup-erase_all j dead t.agents in
    elim (Option-cases (lookup j t.agents)) [
      | inl gone ↦ (ground (arith, there, left), ground (arith, there, left), ground (arith, there))
      | inr (p, found) ↦ elim (Bool-cases (is_young t.timeout now p)) [
        | inl young ↦
            (ground (arith, there, left), ground (arith, there, left), ground (arith, there))
        | inr old ↦
            (ground (arith, there, left), ground (arith, there, left), ground (arith, there))
      ]
    ]

-- An agent that beat at a time after 0 is alive until the timeout has passed since.
pub is_alive-beat :
    (at now : ℕ) (did : String) (metadata : Option (Dict Json)) (t : Tracker)
    → 0 < at
    → now < at + t.timeout
    → is_alive now did (beat at did metadata t) ≡ true
unfolding is_alive beat
is_alive-beat at now did metadata t pos live =
    ground (arith, lookup-insert_self did (beaten at metadata (pulse_of did t)) t.agents)
