-- ===== src/Transaction/Lifecycle.antt =====
-- The life of a transaction: signing and committing.
use roar_protocol.Base.{
  ◌∙◌, ℕ, String, ◌≡◌, ◌≢◌, refl, inl, inr, true, none, some, arith, strip_prefix-append,
  append_text, Option-cases,
}
use roar_protocol.Signing.{Ed25519, check_text}
use roar_protocol.Signing.Cards.{IsKeyPair}
use roar_protocol.Transaction.{
  Transaction, Status, done, wrong_status, bad_key, signed, committed, commit, canonical,
  sign_transaction, verify_transaction, resign, commit_transaction,
}

module _ (e : Ed25519) where
  canonical-signature :
      (tx : Transaction) (sig : String) (st : Status)
      → canonical (record tx { signature = sig; status = st }) ≡ canonical tx
  unfolding canonical
  canonical-signature tx sig st = refl

  -- What is signed verifies under the public key, and only the signature and the status have changed.
  pub verify-sign_transaction :
      (private_key public_key : String) (tx tx' : Transaction)
      → IsKeyPair e private_key public_key
      → sign_transaction e private_key tx ≡ done tx'
      → (verify_transaction e public_key tx' ≡ some true)
        × (tx'.status ≡ signed)
        × (canonical tx' ≡ canonical tx)
  unfolding sign_transaction verify_transaction
  verify-sign_transaction private_key public_key tx tx' pair h =
      elim (Option-cases (e.sign private_key (e.dumps (canonical tx)))) [
        | inl bad ↦ absurd (ground arith)
        | inr (sig, q) ↦
            let final = record tx { signature = append_text "ed25519:" sig; status = signed } in
            let made : final ≡ tx' = ground arith in
            let same = canonical-signature tx (append_text "ed25519:" sig) signed in
            let good = (pair.verifies (e.dumps (canonical tx)) sig q).1 in
            rw (← made) (ground (arith, same, good, strip_prefix-append "ed25519:" sig), refl, same)
      ]

  canonical-commit :
      (tx : Transaction) (sig : String) → canonical (record tx { signature = sig }) ≡ canonical tx
  unfolding canonical
  canonical-commit tx sig = refl

  canonical-status :
      (tx : Transaction) (now : ℕ)
      → canonical (record tx { action = commit; timestamp = now; status = committed })
        ≡ canonical (record tx { action = commit; timestamp = now })
  unfolding canonical
  canonical-status tx now = refl

  commit_transaction-done :
      (private_key : String) (now : ℕ) (tx tx' : Transaction)
      → commit_transaction e private_key now tx ≡ done tx'
      → (tx.status ≡ signed)
        × (resign e private_key (record tx { action = commit; timestamp = now; status = committed })
            ≡ done tx')
  unfolding commit_transaction
  commit_transaction-done private_key now tx tx' h = ground arith

  resign-bad_key :
      (private_key : String) (tx tx' : Transaction)
      → e.sign private_key (e.dumps (canonical tx)) ≡ none
      → resign e private_key tx ≢ done tx'
  unfolding resign
  resign-bad_key private_key tx tx' bad h = ground arith

  resign-signed :
      (private_key : String) (tx tx' : Transaction) (sig : String)
      → e.sign private_key (e.dumps (canonical tx)) ≡ some sig
      → resign e private_key tx ≡ done tx'
      → record tx { signature = append_text "ed25519:" sig } ≡ tx'
  unfolding resign
  resign-signed private_key tx tx' sig q h = ground arith

  verified :
      (public_key : String) (tx : Transaction) (sig : String)
      → check_text e public_key sig (e.dumps (canonical tx)) ≡ some true
      → tx.signature ≡ append_text "ed25519:" sig
      → verify_transaction e public_key tx ≡ some true
  unfolding verify_transaction
  verified public_key tx sig good has = ground (arith, strip_prefix-append "ed25519:" sig)

  -- A transaction is committed only from the status `signed`; the committed one verifies under the
  -- public key, as a commit at the time of the call, over the same parties, amount and payload.
  pub verify-commit_transaction :
      (private_key public_key : String) (now : ℕ) (tx tx' : Transaction)
      → IsKeyPair e private_key public_key
      → commit_transaction e private_key now tx ≡ done tx'
      → (tx.status ≡ signed)
        × (tx'.status ≡ committed)
        × (verify_transaction e public_key tx' ≡ some true)
        × (canonical tx' ≡ canonical (record tx { action = commit; timestamp = now }))
  verify-commit_transaction private_key public_key now tx tx' pair h =
      let ready = record tx { action = commit; timestamp = now; status = committed } in
      let (was, resigned) = commit_transaction-done private_key now tx tx' h in
      elim (Option-cases (e.sign private_key (e.dumps (canonical ready)))) [
        | inl bad ↦ absurd (resign-bad_key private_key ready tx' bad resigned)
        | inr (sig, q) ↦
            let final = record ready { signature = append_text "ed25519:" sig } in
            let made = resign-signed private_key ready tx' sig q resigned in
            let same = canonical-commit ready (append_text "ed25519:" sig) in
            let good = (pair.verifies (e.dumps (canonical ready)) sig q).1 in
            (
              was,
              rw (← made) refl,
              rw (← made) (verified public_key final sig (rw same good) refl),
              rw (← made) (same ∙ canonical-status tx now),
            )
      ]

  -- A commit that raises for a malformed key has changed the object first: its status is
  -- `committed`, so that no further commit is possible, and its signature is the old one.
  pub commit_transaction-bad_key :
      (private_key : String) (now : ℕ) (tx tx' : Transaction)
      → commit_transaction e private_key now tx ≡ bad_key tx'
      → (tx.status ≡ signed)
        × (tx'.status ≡ committed)
        × (tx'.signature ≡ tx.signature)
        × ((key : String) → commit_transaction e key now tx' ≡ wrong_status tx')
  unfolding commit_transaction resign
  commit_transaction-bad_key private_key now tx tx' h =
      let status : tx'.status ≡ committed = ground arith in
      (ground arith, status, ground arith, λ key. ground (arith, status))
