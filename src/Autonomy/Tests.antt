-- ===== src/Autonomy/Tests.antt =====
-- Tests and concrete instances for runtime grants.
use roar_protocol.Base.{String, ◌≡◌, ◌↔◌, ◌≢◌, refl, ap, true, false, [], ◌∷◌, arith, str_dec}
use Prim.Native.String.{count}
use roar_protocol.Types.Samples.{alice, bob}
use roar_protocol.Autonomy.{
  delegate, index, RuntimeToken, valid, Grants, Request, granted_ids, new_token, grant, revoke,
  suffices, any_suffices, is_authorized, allows, cleanup_expired, drop_tokens, drop_token,
}
use roar_protocol.Autonomy.Soundness.{Granted, is_authorized_iff}
use roar_protocol.Autonomy.Revocation.{grant_op, apply, run, revoke-run}

abbrev request : Request
request = record {
  grantor = alice.did;
  grantee = bob.did;
  capabilities = "code" ∷ [];
  autonomy_level = delegate;
  constraints = [];
  ttl = 60;
}

abbrev token : RuntimeToken
token = new_token request "rt-1" 100 100

abbrev granted : Grants
granted = record { tokens = ("rt-1", token) ∷ []; by_grantee = (bob.did, "rt-1" ∷ []) ∷ [] }

authorized : is_authorized 150 bob.did "code" delegate granted ≡ true
unfolding is_authorized any_suffices suffices allows index str_dec
authorized = refl

expired_cleaned : (cleanup_expired 161 granted).0.tokens ≡ []
unfolding cleanup_expired drop_tokens drop_token str_dec
expired_cleaned = refl

is_authorized_iff_example :
    (is_authorized 150 bob.did "code" delegate granted ≡ true)
    ↔ Granted 150 "code" delegate granted.tokens (granted_ids bob.did granted)
is_authorized_iff_example = is_authorized_iff 150 bob.did "code" delegate granted

other_id : ◌≢◌ {A = String} "rt-1" "rt-22"
other_id h = omega (arith, ap count h)

abbrev revoked_token : RuntimeToken
revoked_token = record token { revoked = true }

revoke-run_example : valid 150 revoked_token ≡ false
unfolding run apply grant revoke str_dec
revoke-run_example =
    revoke-run "rt-1" (grant_op request "rt-22" 120 120 ∷ []) 150 granted revoked_token
      (other_id, tt) refl
