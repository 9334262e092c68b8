-- ===== src/Verifier/Replay.antt =====
-- The strict verifier and its replay guard over many calls.
use roar_protocol.Base.{
  ◌⊎◌, ℕ, ◌+◌, ◌≤◌, ◌<◌, String, ◌≡◌, ◌≢◌, refl, false, some, List, [], ◌∷◌, arith, length, All,
  inl, inr,
}
use roar_protocol.Types.{RoarMessage}
use roar_protocol.Dedup.{Guard, is_duplicate}
use roar_protocol.Dedup.Bounds.{IsValid}
use roar_protocol.Dedup.Window.{Call, Op, asks, Before, Keeps, is_duplicate-run}
use roar_protocol.Dedup.Window
use roar_protocol.Signing.{Ed25519}
use roar_protocol.Verifier.Soundness.{verify_strict-accepted}
use roar_protocol.Verifier.{
  ask_guard, Reason, Policy, Clock, Header, pass, fail, accepted, rejected, invalid_hmac_signature,
  check_header, verify_strict,
}

-- A later call: when it is made, and on which message.
pub record Attempt : Type 0 where
  pub clock : Clock
  pub message : RoarMessage

Header-cases : (h : Header) → ((r : Reason) × (h ≡ fail r)) ⊎ ((s : String) × (h ≡ pass s))
Header-cases (fail r) = inl (r, refl)
Header-cases (pass s) = inr (s, refl)

module _ (e : Ed25519) (hexdigest : String → String → String) where
  -- the policy after a sequence of calls
  unfoldable pub run : List Attempt → Policy → Policy
  run [] p = p
  run (a ∷ later) p = run later (verify_strict e hexdigest a.clock a.message p).0

  -- the call that an attempt makes of the guard, if it comes that far
  abbrev pub call_of : Attempt → Call
  call_of a = record { evicted_at = a.clock.evicted_at; now = a.clock.guard_at; key = a.message.id }

  guard_calls : List Attempt → Policy → List Op
  guard_calls [] p = []
  guard_calls (a ∷ later) p =
      let rest = guard_calls later (verify_strict e hexdigest a.clock a.message p).0 in
      elim (check_header p a.clock.age_at a.message) [
        | fail r ↦ rest
        | pass scheme ↦ asks (call_of a) ∷ rest
      ]

  length-guard_calls-le :
      (later : List Attempt) (p : Policy) → length (guard_calls later p) ≤ length later
  unfolding guard_calls
  length-guard_calls-le [] p = omega arith
  length-guard_calls-le (a ∷ later) p =
      ground (arith, length-guard_calls-le later (verify_strict e hexdigest a.clock a.message p).0)

  guard_calls-Keeps :
      (from until : ℕ) (later : List Attempt) (p : Policy)
      → All (λ a. Before until (call_of a)) later
      → All (Keeps from until) (guard_calls later p)
  unfolding guard_calls
  guard_calls-Keeps from until [] p b = tt
  guard_calls-Keeps from until (a ∷ later) p b = ground (
    arith,
    guard_calls-Keeps from until later (verify_strict e hexdigest a.clock a.message p).0 b.1,
  )

  guard-run :
      (later : List Attempt) (p : Policy) (g : Guard)
      → p.replay_guard ≡ some g
      → (run later p).replay_guard ≡ some (Window.run (guard_calls later p) g)
  unfolding run guard_calls verify_strict Window.run
  guard-run [] p g h = h
  guard-run (a ∷ later) p g h = elim (Header-cases (check_header p a.clock.age_at a.message)) [
    | inl (r, q) ↦ ground (arith, guard-run later p g h)
    | inr (scheme, q) ↦
        let c = call_of a in
        let g' = (is_duplicate c.evicted_at c.now c.key g).0 in
        ground (arith, guard-run later (record p { replay_guard = some g' }) g' refl)
  ]

  header_not_hmac :
      (p : Policy) (now : ℕ) (m : RoarMessage) → check_header p now m ≢ fail invalid_hmac_signature
  unfolding check_header
  header_not_hmac p now m h = ground arith

  -- An accepted message, and one refused for its HMAC signature, has been put to the guard.
  asked :
      (t : Clock) (m : RoarMessage) (p : Policy) (g : Guard)
      → p.replay_guard ≡ some g
      → ((verify_strict e hexdigest t m p).1 ≡ accepted)
        ⊎ ((verify_strict e hexdigest t m p).1 ≡ rejected invalid_hmac_signature)
      → ((ask_guard p t m.id).1 ≡ false)
        × ((verify_strict e hexdigest t m p).0.replay_guard
            ≡ some (is_duplicate t.evicted_at t.guard_at m.id g).0)
  unfolding verify_strict
  asked t m p g has h = elim (Header-cases (check_header p t.age_at m)) [
    | inl (r, q) ↦ absurd (ground (arith, header_not_hmac p t.age_at m))
    | inr (scheme, q) ↦ ground arith
  ]

  -- Once the guard has recorded an id, no message with that id is accepted while it remembers it.
  blocked :
      (t : Clock) (m : RoarMessage) (p : Policy) (g : Guard) (later : List Attempt) (t' : Clock)
      (m' : RoarMessage)
      → p.replay_guard ≡ some g
      → IsValid g
      → length later < g.max_keys
      → All (λ a. Before (t.guard_at + g.ttl) (call_of a)) later
      → t'.evicted_at ≤ t'.guard_at
      → t'.guard_at < t.guard_at + g.ttl
      → m'.id ≡ m.id
      → (ask_guard p t m.id).1 ≡ false
      → (verify_strict e hexdigest t m p).0.replay_guard
        ≡ some (is_duplicate t.evicted_at t.guard_at m.id g).0
      → (verify_strict e hexdigest t' m' (run later (verify_strict e hexdigest t m p).0)).1
        ≢ accepted
  blocked t m p g later t' m' has v room before order live same fresh kept h =
      let p' = (verify_strict e hexdigest t m p).0 in
      let g' = (is_duplicate t.evicted_at t.guard_at m.id g).0 in
      let calls = guard_calls later p' in
      let q = guard-run later p' g' kept in
      let (_, _, unseen, _) = verify_strict-accepted e hexdigest t' m' (run later p') h in
      let seen =
        is_duplicate-run t.evicted_at t.guard_at m.id g calls t'.evicted_at t'.guard_at v
          (omega (arith, length-guard_calls-le later p')) (ground (arith, fresh, has))
          (guard_calls-Keeps t.guard_at (t.guard_at + g.ttl) later p' before) order live in
      ground (arith, q, unseen, seen, same)

  -- A message that was accepted is not accepted again, nor is any message with its id: not within
  -- the guard's TTL, whatever other attempts come in between, if these number fewer than the
  -- guard's capacity and the clock does not run backwards inside a call.
  pub verify_strict-once :
      (t : Clock) (m : RoarMessage) (p : Policy) (g : Guard) (later : List Attempt) (t' : Clock)
      (m' : RoarMessage)
      → p.replay_guard ≡ some g
      → IsValid g
      → length later < g.max_keys
      → All (λ a. Before (t.guard_at + g.ttl) (call_of a)) later
      → t'.evicted_at ≤ t'.guard_at
      → t'.guard_at < t.guard_at + g.ttl
      → m'.id ≡ m.id
      → (verify_strict e hexdigest t m p).1 ≡ accepted
      → (verify_strict e hexdigest t' m' (run later (verify_strict e hexdigest t m p).0)).1
        ≢ accepted
  verify_strict-once t m p g later t' m' has v room before order live same ok =
      let (fresh, kept) = asked t m p g has (inl ok) in
      blocked t m p g later t' m' has v room before order live same fresh kept

  -- The guard is asked before the signature is checked: a message that was refused only for its
  -- HMAC signature blocks every message with its id in the same way, also one that is genuine.
  pub verify_strict-forged_blocks :
      (t : Clock) (m : RoarMessage) (p : Policy) (g : Guard) (later : List Attempt) (t' : Clock)
      (m' : RoarMessage)
      → p.replay_guard ≡ some g
      → IsValid g
      → length later < g.max_keys
      → All (λ a. Before (t.guard_at + g.ttl) (call_of a)) later
      → t'.evicted_at ≤ t'.guard_at
      → t'.guard_at < t.guard_at + g.ttl
      → m'.id ≡ m.id
      → (verify_strict e hexdigest t m p).1 ≡ rejected invalid_hmac_signature
      → (verify_strict e hexdigest t' m' (run later (verify_strict e hexdigest t m p).0)).1
        ≢ accepted
  verify_strict-forged_blocks t m p g later t' m' has v room before order live same bad =
      let (fresh, kept) = asked t m p g has (inr bad) in
      blocked t m p g later t' m' has v room before order live same fresh kept
