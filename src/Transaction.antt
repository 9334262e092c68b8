-- ===== src/Transaction.antt =====
-- Commerce transactions and receipts: python/src/roar_sdk/transaction.py. Amounts are natural
-- numbers; ids and clock readings are arguments. A transaction is one object that the functions
-- change: where a call raises, the object is returned as the call left it.
pub mod Lifecycle
pub mod Receipts
mod Tests
use roar_protocol.Base.{
  ℕ, String, Bool, true, false, ◌&&◌, Option, none, some, List, [], ◌∷◌, if◌then◌else◌, nonempty,
  strip_prefix, append_text,
}
use roar_protocol.Base.Dict.{Dict}
use roar_protocol.Json.{Json, null, num, str, obj, of_dict}
use roar_protocol.Signing.{Ed25519, check_text}

pub data Action : Type 0 where
  purchase authorize commit refund : Action

pub data Status : Type 0 where
  pending signed committed rejected : Status

pub record Transaction : Type 0 where
  pub transaction_id : String
  pub initiator_did : String
  pub counterparty_did : String
  pub action : Action
  pub amount : Option ℕ
  pub currency : Option String
  pub payload : Dict Json
  pub timestamp : ℕ
  pub signature : String
  pub status : Status

unfoldable pub action_text : Action → String
action_text purchase = "purchase"
action_text authorize = "authorize"
action_text commit = "commit"
action_text refund = "refund"

abbrev pub num_or_null : Option ℕ → Json
num_or_null none = null
num_or_null (some n) = num n

abbrev pub str_or_null : Option String → Json
str_or_null none = null
str_or_null (some s) = str s

unfoldable pub canonical : Transaction → Json
unfolding action_text
canonical tx = obj (
    of_dict (
      ("transaction_id", str tx.transaction_id)
      ∷ ("initiator_did", str tx.initiator_did)
      ∷ ("counterparty_did", str tx.counterparty_did)
      ∷ ("action", str (action_text tx.action))
      ∷ ("amount", num_or_null tx.amount)
      ∷ ("currency", str_or_null tx.currency)
      ∷ ("payload", obj (of_dict tx.payload))
      ∷ ("timestamp", num tx.timestamp)
      ∷ []))

-- How a call ends: with the object as it is then, or by raising.
pub data Outcome : Type 0 where
  done : Transaction → Outcome
  wrong_status bad_key : Transaction → Outcome

-- the object after a call
abbrev pub object : Outcome → Transaction
object (done tx) = tx
object (wrong_status tx) = tx
object (bad_key tx) = tx

pub record TransactionReceipt : Type 0 where
  pub receipt_id : String
  pub transaction_id : String
  pub initiator_did : String
  pub counterparty_did : String
  pub action : String
  pub amount : Option ℕ
  pub currency : Option String
  pub initiator_signature : String
  pub counterparty_signature : String
  pub timestamp : ℕ

abbrev pub is_dual_signed : TransactionReceipt → Bool
is_dual_signed r = nonempty r.initiator_signature && nonempty r.counterparty_signature

-- A receipt of a committed transaction, none where the call raises.
unfoldable pub create_receipt : String → ℕ → Transaction → Option TransactionReceipt
unfolding action_text
create_receipt receipt_id now tx = elim tx.status [
  | committed ↦ some (record {
    receipt_id = receipt_id;
    transaction_id = tx.transaction_id;
    initiator_did = tx.initiator_did;
    counterparty_did = tx.counterparty_did;
    action = action_text tx.action;
    amount = tx.amount;
    currency = tx.currency;
    initiator_signature = tx.signature;
    counterparty_signature = "";
    timestamp = now;
  })
  | _ ↦ none
]

-- the body that a countersignature covers
unfoldable pub receipt_body : TransactionReceipt → Json
receipt_body r = obj (
    of_dict (
      ("receipt_id", str r.receipt_id)
      ∷ ("transaction_id", str r.transaction_id)
      ∷ ("initiator_did", str r.initiator_did)
      ∷ ("counterparty_did", str r.counterparty_did)
      ∷ ("action", str r.action)
      ∷ ("amount", num_or_null r.amount)
      ∷ ("currency", str_or_null r.currency)
      ∷ ("initiator_signature", str r.initiator_signature)
      ∷ []))

-- `s.removeprefix("ed25519:")`
abbrev pub without_scheme : String → String
without_scheme s = elim (strip_prefix "ed25519:" s) [ none ↦ s | some b64 ↦ b64 ]

module _ (e : Ed25519) where
  unfoldable pub sign_transaction : String → Transaction → Outcome
  sign_transaction private_key tx = elim (e.sign private_key (e.dumps (canonical tx))) [
    | none ↦ bad_key tx
    | some sig ↦ done (record tx { signature = append_text "ed25519:" sig; status = signed })
  ]

  -- Whether the signature is good; none where decoding it raises.
  unfoldable pub verify_transaction : String → Transaction → Option Bool
  verify_transaction public_key tx = elim (strip_prefix "ed25519:" tx.signature) [
    | none ↦ some false
    | some b64 ↦ check_text e public_key b64 (e.dumps (canonical tx))
  ]

  unfoldable pub create_purchase_authorization :
      String → String → ℕ → String → Dict Json → String → String → ℕ → Outcome
  unfolding sign_transaction
  create_purchase_authorization initiator counterparty amount currency payload private_key id now =
      sign_transaction private_key (record {
        transaction_id = id;
        initiator_did = initiator;
        counterparty_did = counterparty;
        action = authorize;
        amount = some amount;
        currency = some currency;
        payload = payload;
        timestamp = now;
        signature = "";
        status = pending;
      })

  -- the second signature, on the fields that `commit_transaction` has set
  unfoldable pub resign : String → Transaction → Outcome
  resign private_key tx = elim (e.sign private_key (e.dumps (canonical tx))) [
    | none ↦ bad_key tx
    | some sig ↦ done (record tx { signature = append_text "ed25519:" sig })
  ]

  unfoldable pub commit_transaction : String → ℕ → Transaction → Outcome
  commit_transaction private_key now tx = elim tx.status [
    | signed ↦
        resign private_key (record tx { action = commit; timestamp = now; status = committed })
    | _ ↦ wrong_status tx
  ]

  -- The countersigned receipt, none where the key is malformed and the call raises.
  unfoldable pub countersign_receipt : String → TransactionReceipt → Option TransactionReceipt
  countersign_receipt private_key r = elim (e.sign private_key (e.dumps (receipt_body r))) [
    | none ↦ none
    | some sig ↦ some (record r { counterparty_signature = append_text "ed25519:" sig })
  ]

  -- The public key of the initiator is taken and not used.
  unfoldable pub verify_receipt : String → String → TransactionReceipt → Option Bool
  verify_receipt initiator_pub counterparty_pub r =
      if is_dual_signed r
      then check_text e counterparty_pub (without_scheme r.counterparty_signature)
          (e.dumps (receipt_body r))
      else some false
