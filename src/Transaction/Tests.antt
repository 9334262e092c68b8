-- ===== src/Transaction/Tests.antt =====
-- Tests and concrete instances for transactions and receipts.
use roar_protocol.Base.{String, ◌≡◌, refl, some, none, [], arith}
use roar_protocol.Signing.Toy.{toy}
use roar_protocol.Signing.{Ed25519}
use roar_protocol.Transaction.{
  Transaction, TransactionReceipt, Status, signed, committed, purchase, commit, wrong_status,
  commit_transaction, resign,
}
use roar_protocol.Transaction.Lifecycle.{commit_transaction-bad_key}

abbrev order : Status → String → Transaction
order status signature = record {
  transaction_id = "tx1";
  initiator_did = "did:roar:agent:alice";
  counterparty_did = "did:roar:agent:bob";
  action = purchase;
  amount = some 42;
  currency = some "USD";
  payload = [];
  timestamp = 100;
  signature = signature;
  status = status;
}

abbrev finished : Transaction
finished = record (order committed "ed25519:c2ln") { action = commit; timestamp = 120 }

-- a signer that refuses every key
abbrev broken : Ed25519
broken = record toy { sign = λ key body. none }

abbrev half : Transaction
half = record (order committed "ed25519:old") { action = commit; timestamp = 120 }

commit_transaction-bad_key_example :
    ((order signed "ed25519:old").status ≡ signed)
    × (half.status ≡ committed)
    × (half.signature ≡ (order signed "ed25519:old").signature)
    × ((key : String) → commit_transaction broken key 130 half ≡ wrong_status half)
unfolding commit_transaction resign
commit_transaction-bad_key_example =
    let (a, b, c, again) =
      commit_transaction-bad_key broken "zz" 120 (order signed "ed25519:old") half refl in
    (a, b, c, λ key. ground arith)

abbrev receipt : String → TransactionReceipt
receipt counterparty = record {
  receipt_id = "r1";
  transaction_id = "tx1";
  initiator_did = "did:roar:agent:alice";
  counterparty_did = "did:roar:agent:bob";
  action = "commit";
  amount = some 42;
  currency = some "USD";
  initiator_signature = "ed25519:c2ln";
  counterparty_signature = counterparty;
  timestamp = 130;
}
