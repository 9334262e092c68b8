-- ===== src/Heartbeat/Tests.antt =====
-- Tests and a concrete instance for the tracker.
use roar_protocol.Base.{◌≡◌, refl, [], ◌∷◌}
use roar_protocol.Heartbeat.{Tracker, reap, dead_dids}

abbrev pulses : Tracker
pulses = record {
  timeout = 300;
  agents = ("a", record { did = "a"; last_beat = 10; consecutive_misses = 0; metadata = [] }) ∷ [];
}

dead_after : (reap 310 pulses).1 ≡ "a" ∷ []
unfolding reap dead_dids
dead_after = refl
