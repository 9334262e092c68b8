-- ===== src/Transaction/Receipts.antt =====
-- Receipts of committed transactions.
use roar_protocol.Base.{
  ℕ, String, ◌≡◌, refl, inl, inr, true, some, arith, strip_prefix-append, append_text,
  nonempty-append, Option-cases, nonempty,
}
use roar_protocol.Signing.{Ed25519}
use roar_protocol.Signing.Cards.{IsKeyPair}
use roar_protocol.Transaction.{
  Transaction, TransactionReceipt, committed, create_receipt, receipt_body, countersign_receipt,
  verify_receipt,
}

module _ (e : Ed25519) where
  -- A receipt is made exactly of committed transactions, and carries the initiator's signature.
  pub create_receipt-committed :
      (receipt_id : String) (now : ℕ) (tx : Transaction) (r : TransactionReceipt)
      → create_receipt receipt_id now tx ≡ some r
      → (tx.status ≡ committed)
        × (r.initiator_signature ≡ tx.signature)
        × (r.transaction_id ≡ tx.transaction_id)
        × (r.amount ≡ tx.amount)
  unfolding create_receipt
  create_receipt-committed receipt_id now tx r h = ground arith

  receipt_body-countersigned :
      (r : TransactionReceipt) (sig : String)
      → receipt_body (record r { counterparty_signature = sig }) ≡ receipt_body r
  unfolding receipt_body
  receipt_body-countersigned r sig = refl

  -- The initiator's key makes no difference to the verdict on a receipt, and any text that is not
  -- empty passes for the initiator's signature: countersigning a receipt with such a text makes it
  -- verify, whatever key is named for the initiator.
  pub verify_receipt-countersigned :
      (private_key public_key initiator_pub : String) (r r' : TransactionReceipt)
      → IsKeyPair e private_key public_key
      → nonempty r.initiator_signature ≡ true
      → countersign_receipt e private_key r ≡ some r'
      → verify_receipt e initiator_pub public_key r' ≡ some true
  unfolding countersign_receipt verify_receipt
  verify_receipt-countersigned private_key public_key initiator_pub r r' pair full h =
      elim (Option-cases (e.sign private_key (e.dumps (receipt_body r)))) [
        | inl bad ↦ absurd (ground arith)
        | inr (sig, q) ↦
            let final = record r { counterparty_signature = append_text "ed25519:" sig } in
            let made : final ≡ r' = ground arith in
            let good = (pair.verifies (e.dumps (receipt_body r)) sig q).1 in
            rw (← made) (
              ground (
                arith,
                full,
                good,
                receipt_body-countersigned r (append_text "ed25519:" sig),
                strip_prefix-append "ed25519:" sig,
                nonempty-append "ed25519:" sig refl,
              ))
      ]
