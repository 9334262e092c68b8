-- ===== src/Did/Tests.antt =====
-- Tests and concrete instances for the resolver.
use roar_protocol.Base.{◌≡◌, refl, some}
use roar_protocol.Did.{
  key, hex, did_to_url, split_colons, unescape_colons, join_slash, public_key_to_did,
  resolve_did_to_public_key,
}
use roar_protocol.Did.Samples.{raw, network}
use roar_protocol.Did.Resolve.{resolve-public_key_to_did}

web_url :
    did_to_url "did:web:example.com%3A8443:agents:planner"
    ≡ some "https://example.com:8443/agents/planner/did.json"
unfolding did_to_url split_colons unescape_colons join_slash
web_url = refl

resolve-public_key_to_did_example : resolve_did_to_public_key network "did:key:z6Mk" ≡ key (hex raw)
unfolding public_key_to_did
resolve-public_key_to_did_example =
    resolve-public_key_to_did network "0102" "did:key:z6Mk" raw refl refl refl refl
