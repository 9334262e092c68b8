-- ===== src/Verifier/Tests.antt =====
-- Tests and concrete instances for the strict verifier.
use roar_protocol.Base.{ℕ, String, ◌≡◌, ◌≢◌, refl, false, some, List, [], ◌∷◌, arith, str_dec}
use roar_protocol.Json.{num, nan, str}
use roar_protocol.Types.{RoarMessage}
use roar_protocol.Types.Samples.{bob, greeting}
use roar_protocol.Types.Message.{verify, out_of_window}
use roar_protocol.Dedup.{Guard, is_duplicate}
use roar_protocol.Dedup.Bounds.{IsValid}
use roar_protocol.Signing.Toy.{toy}
use roar_protocol.Verifier.{
  Policy, Clock, accepted, rejected, invalid_hmac_signature, check_header, check_signature,
  ask_guard, verify_strict,
}
use roar_protocol.Verifier.Soundness.{PassesHeader, Confirmed, verify_strict-accepted}
use roar_protocol.Verifier.Replay.{Attempt, run, verify_strict-once, verify_strict-forged_blocks}

abbrev digest : String → String → String
digest _ _ = "ab12"

abbrev guard : Guard
guard = record { max_keys = 4; ttl = 300; seen = [] }

guard-IsValid : IsValid guard
guard-IsValid = record { distinct = tt; bounded = omega arith }

abbrev policy : Policy
policy = record {
  hmac_secret = "secret";
  hmac_secrets = [];
  expected_recipient = some bob.did;
  max_age = 300;
  max_future_skew = 30;
  replay_guard = some guard;
  allowed = "hmac-sha256" ∷ [];
  trusted_ed25519_keys = [];
}

abbrev with_signature : String → RoarMessage
with_signature s = record greeting { auth = ("timestamp", num 100) ∷ ("signature", str s) ∷ [] }

abbrev genuine : RoarMessage
genuine = with_signature "hmac-sha256:ab12"

abbrev forged : RoarMessage
forged = with_signature "hmac-sha256:beef"

abbrev at : ℕ → Clock
at n = record { age_at = n; evicted_at = n; guard_at = n }

-- Accepted, and refused when it is shown again or follows a forgery.
genuine-accepted : (verify_strict toy digest (at 150) genuine policy).1 ≡ accepted
unfolding verify_strict check_header check_signature is_duplicate verify out_of_window str_dec
genuine-accepted = refl

-- A time that is NaN is accepted at every later time.
nan_accepted :
    (verify_strict toy digest
      (at 999_999)
      (record greeting { auth = ("timestamp", nan) ∷ ("signature", str "hmac-sha256:ab12") ∷ [] })
      policy).1
    ≡ accepted
unfolding verify_strict check_header check_signature is_duplicate verify out_of_window str_dec
nan_accepted = refl

forged_refused :
    (verify_strict toy digest (at 150) forged policy).1 ≡ rejected invalid_hmac_signature
unfolding verify_strict check_header check_signature is_duplicate verify out_of_window str_dec
forged_refused = refl

verify_strict-accepted_example :
    (scheme : String) × PassesHeader policy 150 genuine scheme
    × ((ask_guard policy (at 150) genuine.id).1 ≡ false)
    × Confirmed toy digest policy genuine scheme
verify_strict-accepted_example =
    verify_strict-accepted toy digest (at 150) genuine policy genuine-accepted

abbrev between : List Attempt
between = record { clock = at 160; message = record forged { id = "m2" } } ∷ []

verify_strict-once_example :
    (verify_strict toy digest
      (at 170)
      genuine
      (run toy digest between (verify_strict toy digest (at 150) genuine policy).0)).1
    ≢ accepted
verify_strict-once_example =
    verify_strict-once toy digest (at 150) genuine policy guard between (at 170) genuine refl
      guard-IsValid (omega arith) (omega arith, tt) (omega arith) (omega arith) refl
      genuine-accepted

verify_strict-forged_blocks_example :
    (verify_strict toy digest
      (at 170)
      genuine
      (run toy digest between (verify_strict toy digest (at 150) forged policy).0)).1
    ≢ accepted
verify_strict-forged_blocks_example =
    verify_strict-forged_blocks toy digest (at 150) forged policy guard between (at 170) genuine
      refl guard-IsValid (omega arith) (omega arith, tt) (omega arith) (omega arith) refl
      forged_refused
