-- ===== src/Router/Dispatch.antt =====
-- What a message that reaches the server has passed, on every path.
use roar_protocol.Base.{
  Option-cases, Bool-cases, String, ◌≡◌, refl, ap, ◌∙◌, inl, inr, true, false, Option, none, some,
  arith, nonempty,
}
use mathlib.Core.Path.{subst}
use roar_protocol.Types.{RoarMessage}
use roar_protocol.Types.Message.{verify}
use roar_protocol.Signing.{Ed25519}
use roar_protocol.Verifier.{Policy, Verdict, accepted, verify_strict}
use roar_protocol.Router.{
  State, Request, dispatched, check_rate, check_replay, message_max_age, receive_signed, receive,
  handle_message, strict_reply,
}

module _ (e : Ed25519) (hexdigest : String → String → String) where
  -- How a message can have been admitted: by the strict verifier where there is one, and else by
  -- the HMAC under the server's secret, with an id that the replay test does not know.
  pub data Admitted (q : Request) (m : RoarMessage) (s : State) : Type 0 where
    by_policy :
        (p : Policy)
        → s.strict ≡ some p
        → (verify_strict e hexdigest q.strict_clock m p).1 ≡ accepted
        → Admitted q m s
    by_secret :
        s.strict ≡ none
        → nonempty s.signing_secret ≡ true
        → verify e.dumps hexdigest s.signing_secret message_max_age q.verify_at m ≡ some true
        → (check_replay q.replay_at m.id s.seen).1 ≡ false
        → Admitted q m s

  strict_reply-dispatched :
      (m m' : RoarMessage) (v : Verdict)
      → strict_reply e hexdigest m v ≡ dispatched m'
      → (m ≡ m') × (v ≡ accepted)
  strict_reply-dispatched m m' v h = ground arith

  pub receive_signed-dispatched :
      (q : Request) (m m' : RoarMessage) (s : State)
      → (receive_signed e hexdigest q m s).1 ≡ dispatched m'
      → (m ≡ m')
        × (nonempty s.signing_secret ≡ true)
        × (verify e.dumps hexdigest s.signing_secret message_max_age q.verify_at m ≡ some true)
        × ((check_replay q.replay_at m.id s.seen).1 ≡ false)
  unfolding receive_signed
  receive_signed-dispatched q m m' s h = ground arith

  receive-dispatched :
      (q : Request) (m m' : RoarMessage) (s : State) (strict : Option Policy)
      → s.strict ≡ strict
      → (receive e hexdigest q m s).1 ≡ dispatched m'
      → (m ≡ m') × Admitted q m s
  unfolding receive
  receive-dispatched q m m' s none off h =
      let (same, full, ok, fresh) = receive_signed-dispatched q m m' s (rw (off, receive) at h) in
      (same, by_secret off full ok fresh)
  receive-dispatched q m m' s (some p) on h =
      let (same, ok) =
        strict_reply-dispatched m m' (verify_strict e hexdigest q.strict_clock m p).1
          (rw (on, receive) at h) in
      (same, by_policy p on ok)

  -- A message that is handed to the server is the one in the request; the rate limiter let it
  -- through; and it was admitted by the strict verifier, or where there is none by the HMAC and the
  -- replay test, in the state that the limiter left.
  pub handle_message-dispatched :
      (q : Request) (m : RoarMessage) (s : State)
      → (handle_message e hexdigest q s).1 ≡ dispatched m
      → (q.parsed ≡ some m)
        × ((check_rate q.bucket_at s).1 ≡ false)
        × Admitted q m (check_rate q.bucket_at s).0
  unfolding handle_message
  handle_message-dispatched q m s h =
      let s' = (check_rate q.bucket_at s).0 in
      elim (Bool-cases (check_rate q.bucket_at s).1) [
        | inl limited ↦ absurd (ground arith)
        | inr free ↦ elim (Option-cases q.parsed) [
          | inl bad ↦ absurd (ground arith)
          | inr (m₀, ok) ↦
              let (same, how) = receive-dispatched q m₀ m s' s'.strict refl (ground arith) in
              (ok ∙ ap some same, free, subst (λ x. Admitted q x s') same how)
        ]
      ]
