-- ===== src/Types/Message.antt =====
-- `ROARMessage.sign` and `verify` of python/src/roar_sdk/types.py. `dumps` stands for `json.dumps`
-- with sorted keys, and `hexdigest` for the HMAC-SHA256 of a key and a text, in hex digits.
pub mod Signing
mod Tests
use roar_protocol.Base.{
  ℕ, ◌+◌, ◌-◌, ◌≤◌, ◌<◌, String, ◌≡◌, refl, ◌≢◌, Bool, true, false, Option, none, some, List, [],
  ◌∷◌, arith, ltb, if◌then◌else◌, ◌==◌, str_dec, strip_prefix, strip_prefix-append, is_ascii,
  compare_digest, Option-cases, inl, inr, append_text,
}
use roar_protocol.Base.Dict.{Dict, lookup, insert}
use roar_protocol.Json.{Json, num, str, obj, of_dict, number?, finite, not_a_number}
use roar_protocol.Types.{RoarMessage, MessageIntent}

unfoldable pub intent_text : MessageIntent → String
intent_text MessageIntent.execute = "execute"
intent_text MessageIntent.delegate = "delegate"
intent_text MessageIntent.update = "update"
intent_text MessageIntent.ask = "ask"
intent_text MessageIntent.respond = "respond"
intent_text MessageIntent.notify = "notify"
intent_text MessageIntent.discover = "discover"

-- `MessageIntent(value)`, none where it raises
unfoldable pub intent_of_text : String → Option MessageIntent
intent_of_text s =
    if s == "execute"
    then some MessageIntent.execute
    else if s == "delegate"
    then some MessageIntent.delegate
    else if s == "update"
    then some MessageIntent.update
    else if s == "ask"
    then some MessageIntent.ask
    else if s == "respond"
    then some MessageIntent.respond
    else if s == "notify"
    then some MessageIntent.notify
    else if s == "discover"
    then some MessageIntent.discover
    else none

-- `d.get(k, v)`
abbrev pub get_default : String → Json → Dict Json → Json
get_default k v d = elim (lookup k d) [ none ↦ v | some w ↦ w ]

unfoldable pub signing_body : RoarMessage → Json
unfolding intent_text
signing_body m = obj (
    of_dict (
      ("id", str m.id)
      ∷ ("from", str m.from_identity.did)
      ∷ ("to", str m.to_identity.did)
      ∷ ("intent", str (intent_text m.intent))
      ∷ ("payload", obj (of_dict m.payload))
      ∷ ("context", obj (of_dict m.context))
      ∷ ("timestamp", get_default "timestamp" (num m.timestamp) m.auth)
      ∷ []))

-- `auth.get("signature") or ""`, where a value that is no text is refused like the empty one
abbrev pub signature_text : Dict Json → String
signature_text auth = elim (lookup "signature" auth) [ some (str s) ↦ s | _ ↦ "" ]

-- `abs(a - b)`
abbrev pub distance : ℕ → ℕ → ℕ
distance a b = (a - b) + (b - a)

-- The age test: whether the message is too old or too far ahead, and none where the subtraction
-- raises, since the time is no number. A `max_age` of 0 skips it, and NaN passes it.
unfoldable pub out_of_window : ℕ → ℕ → Dict Json → Option Bool
out_of_window max_age now auth =
    if ltb 0 max_age
    then elim (number? (get_default "timestamp" (num 0) auth)) [
      | none ↦ none
      | some not_a_number ↦ some false
      | some (finite t) ↦ some (ltb max_age (distance now t))
    ]
    else some false

module _ (dumps : Json → String) (hexdigest : String → String → String) where
  unfoldable pub sign : String → ℕ → RoarMessage → RoarMessage
  sign secret now m =
      let timed = record m { auth = ("timestamp", num now) ∷ [] } in
      let sig = hexdigest secret (dumps (signing_body timed)) in
      record timed { auth = insert "signature" (str (append_text "hmac-sha256:" sig)) timed.auth }

  -- Whether the message is accepted; none where the call raises.
  unfoldable pub verify : String → ℕ → ℕ → RoarMessage → Option Bool
  verify secret max_age now m = elim (strip_prefix "hmac-sha256:" (signature_text m.auth)) [
    | none ↦ some false
    | some expected ↦ elim (out_of_window max_age now m.auth) [
      | none ↦ none
      | some true ↦ some false
      | some false ↦ compare_digest expected (hexdigest secret (dumps (signing_body m)))
    ]
  ]
