-- ===== src/Audit/Tests.antt =====
-- Tests and concrete instances for the audit log.
use roar_protocol.Base.{str_dec, ℕ, ◌≡◌, refl, true, none, List, [], ◌∷◌, ◌+◌, length}
use native.Mathlib.Decide.{ℕ_discrete}
use roar_protocol.Json.{str}
use roar_protocol.Types.Message.{intent_text}
use roar_protocol.Types.Samples.{greeting}
use roar_protocol.Audit.{
  some, Crypto, AuditLog, verify_from, verify_chain, record_message, new_content,
}
use roar_protocol.Audit.Chain.{Event, record_all, IsNumbered, record_all-verifies}
use roar_protocol.Audit.Tamper.{contents, verify_chain_tamper_evident}

abbrev crypto : Crypto ℕ
crypto = record {
  digest_dec = ℕ_discrete;
  genesis = 0;
  hash_message = λ _. 7;
  hash_entry = λ x. x.sequence + x.prev_hash + 1;
  sign_entry = λ h key. some "sig";
  verifies = λ h sig key. some true;
}

abbrev new_log : AuditLog ℕ
new_log = record { private_key = "sk"; public_key = "pk"; entries = [] }

abbrev events : List (Event crypto)
events =
    record { message = greeting; trace = "t"; at = 5 }
    ∷ record { message = greeting; trace = ""; at = 6 }
    ∷ []

abbrev log : AuditLog ℕ
log = record new_log {
  entries =
      record {
        content = record {
          sequence = 0;
          timestamp = 5;
          sender_did = greeting.from_identity.did;
          receiver_did = greeting.to_identity.did;
          intent = "ask";
          message_id = "m1";
          message_hash = 7;
          trace_id = str "t";
          prev_hash = 0;
        };
        entry_hash = 1;
        signature = "sig";
      }
      ∷ [];
}

log_recorded : record_message crypto greeting "t" 5 new_log ≡ some log
unfolding record_message new_content intent_text str_dec
log_recorded = refl

log-verifies : verify_chain crypto "" log ≡ none
unfolding verify_chain verify_from ℕ_discrete
log-verifies = refl

record_all-verifies_example :
    (log' : AuditLog ℕ) × (record_all crypto events new_log ≡ some log')
    × (verify_chain crypto "" log' ≡ none)
    × IsNumbered crypto 0 log'.entries
    × (length log'.entries ≡ 2)
record_all-verifies_example =
    record_all-verifies crypto "" events "sk" "pk" (λ h. ("sig", refl, refl))

verify_chain_tamper_evident_example : contents crypto log.entries ≡ contents crypto log.entries
verify_chain_tamper_evident_example =
    verify_chain_tamper_evident crypto "" "" log log ((λ _. refl), tt) log-verifies log-verifies
      refl refl
