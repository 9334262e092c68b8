-- ===== src/Delegation/Tests.antt =====
-- Tests and concrete instances for delegation tokens.
use roar_protocol.Base.{ℕ, ◌≡◌, refl, true, some, none, [], ◌∷◌, arith, ◌+◌, ◌≤◌, Option}
use roar_protocol.Signing.Toy.{toy, toy_pair}
use roar_protocol.Delegation.{DelegationToken, Grant, consume, issue_token, verify_token, unsigned}
use roar_protocol.Delegation.Uses.{run, run-max_uses}
use roar_protocol.Delegation.Issue.{verify_token-issue_token}

abbrev request : Option ℕ → Option ℕ → Grant
request expires_in max_uses = record {
  delegator_did = "did:roar:agent:alice";
  delegate_did = "did:roar:agent:bob";
  capabilities = "code" ∷ [];
  expires_in = expires_in;
  max_uses = max_uses;
  can_redelegate = true;
}

abbrev signed : Option ℕ → Option ℕ → DelegationToken
signed expires_in max_uses = record (unsigned (request expires_in max_uses) "tok" 100 101) {
  signature = "ed25519:c2ln";
}

abbrev twice : DelegationToken
twice = signed (some 60) (some 2)

two_of_three : (run (110 ∷ 120 ∷ 130 ∷ []) twice).1 ≡ 2
unfolding run consume
two_of_three = refl

run-max_uses_example :
    let (t', n) = run (110 ∷ 120 ∷ 130 ∷ []) twice in
    (t' ≡ record twice { use_count = twice.use_count + n }) × (twice.use_count + n ≤ 2)
run-max_uses_example = run-max_uses (110 ∷ 120 ∷ 130 ∷ []) 2 twice refl (omega arith)

verify_token-issue_token_example : verify_token toy 150 "pk" twice ≡ some true
unfolding issue_token
verify_token-issue_token_example =
    verify_token-issue_token toy (request (some 60) (some 2)) "sk" "pk" "tok" none 100 101 150 twice
      toy_pair (ground arith) refl refl
