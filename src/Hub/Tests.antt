-- ===== src/Hub/Tests.antt =====
-- Tests and concrete instances for the hub.
use roar_protocol.Base.{
  ◌≡◌, ◌⊎◌, String, refl, true, some, none, [], ◌∷◌, arith, str_dec, ◌==◌, if◌then◌else◌,
}
use roar_protocol.Json.{Fields, field, end, str, num, nan, obj, null, number?}
use roar_protocol.Types.Directory.{find_entry}
use roar_protocol.Types.Samples.{alice, bob, card_of, entry_of}
use roar_protocol.Challenge.{new_challenge, issue, consume, evict_expired}
use roar_protocol.Challenge.OneShot.{IsValid}
use roar_protocol.Hub.{
  Libraries, Hub, Body, registered, removed, begin_registration, complete_challenge, delete_agent,
  verify_ed25519, answer, read_bounded_json, text_field, check_delete,
}
use roar_protocol.Hub.Registration.{
  Registered, local_entry, complete_challenge-registered, complete_challenge-begin_registration,
}
use roar_protocol.Hub.Removal.{Proved, delete_agent-Proved}
use roar_protocol.Hub.Filing.{Filed}
use roar_protocol.Hub.Invariant.{IsGood, Reaches-IsGood, here, and_then, begins, completes, deletes}

-- libraries that take every signature, and that read one card
abbrev lib : Libraries
lib = record {
  b64decode = λ s. some [];
  fromhex = λ s. some [];
  check = λ key sig message. some true;
  parse_card = λ raw. some (card_of alice);
  parse_entry = λ raw. some (entry_of alice);
  dump_entry = λ e. null;
  float = number?;
  text_of = λ v. "n";
  float_text = λ t. "t";
}

abbrev empty : Hub
empty = record { hub_url = "http://hub"; directory = []; peers = []; challenges = [] }

abbrev two : Hub
two = record empty {
  directory = ("did:roar:agent:alice", entry_of alice) ∷ ("did:roar:agent:bob", entry_of bob) ∷ [];
}

abbrev request : Fields
request = field "did" (str "did:roar:agent:bob") (field "public_key" (str "pk") end)

abbrev reply : Fields
reply = field "challenge_id" (str "c1") (field "signature" (str "ed25519:sig") end)

abbrev body_of : Fields → Body
body_of fields = record { size = 100; parsed = some (obj fields) }

abbrev waiting : Hub
waiting = record empty {
  challenges = ("c1", new_challenge "did:roar:agent:bob" "pk" (obj end) "c1" "n1" 100) ∷ [];
}

waiting-IsValid : IsValid waiting.challenges
waiting-IsValid = record { distinct = (refl, tt); bounded = omega arith }

complete_challenge-registered_example :
    Registered lib
      (body_of reply)
      110
      110
      110
      waiting
      (complete_challenge lib (body_of reply) 110 110 110 110 waiting).0
unfolding complete_challenge read_bounded_json text_field consume evict_expired answer
    verify_ed25519 str_dec
complete_challenge-registered_example =
    complete_challenge-registered lib (body_of reply) 110 110 110 110 waiting waiting-IsValid refl

-- An agent that proves its own key, for its own DID, has another agent's card filed.
complete_challenge-begin_registration_example :
    let begun = (begin_registration (body_of request) "c1" "n1" 100 100 empty).0 in
    let (hub', r) = complete_challenge lib (body_of reply) 110 110 110 110 begun in
    (r ≡ registered)
    × (find_entry alice.did hub'.directory ≡ some (local_entry (card_of alice) 110 110 empty))
unfolding begin_registration read_bounded_json text_field issue evict_expired verify_ed25519 str_dec
complete_challenge-begin_registration_example =
    complete_challenge-begin_registration lib (body_of request) (body_of reply) request reply
      "did:roar:agent:bob" "pk" "c1" "n1" "ed25519:sig" (card_of alice) 100 100 110 110 110 110
      empty (new_challenge "did:roar:agent:bob" "pk" (obj end) "c1" "n1" 100)
      (record { distinct = tt; bounded = omega arith }) refl refl refl refl refl refl refl
      (omega arith) (omega arith) refl refl

abbrev farewell : Body
farewell = body_of (
    field "signature" (str "ed25519:sig")
      (field "nonce" (str "x") (field "timestamp" (num 100) end)))

removed_alice :
    (delete_agent lib "did:roar:agent:alice" farewell 120 two).1 ≡ removed "did:roar:agent:alice"
unfolding delete_agent read_bounded_json check_delete find_entry verify_ed25519 str_dec
removed_alice = refl

-- A time that is NaN is never stale.
removed_by_nan :
    (delete_agent lib "did:roar:agent:alice"
      (body_of (
        field "signature"
          (str "ed25519:sig")
          (field "nonce" (str "x") (field "timestamp" nan end))))
      999_999
      two).1
    ≡ removed "did:roar:agent:alice"
unfolding delete_agent read_bounded_json check_delete find_entry verify_ed25519 str_dec
removed_by_nan = refl

delete_agent-Proved_example :
    let (hub', r) = delete_agent lib "did:roar:agent:alice" farewell 120 two in
    (hub' ≡ two)
    ⊎ ((r ≡ removed "did:roar:agent:alice")
        × Proved lib "did:roar:agent:alice" farewell 120 two
        × ((other : String)
            → find_entry other hub'.directory
              ≡ (if other == "did:roar:agent:alice" then none else find_entry other two.directory)))
delete_agent-Proved_example = delete_agent-Proved lib "did:roar:agent:alice" farewell 120 two

abbrev last_hub : Hub
last_hub =
    (delete_agent lib "did:roar:agent:alice" farewell 120
      (complete_challenge lib (body_of reply) 110 110 110 110
        (begin_registration (body_of request) "c1" "n1" 100 100 empty).0).0).0

empty-Filed : Filed empty.directory
unfolding find_entry
empty-Filed did e h = absurd (ground arith)

Reaches-IsGood_example : IsGood lib last_hub
Reaches-IsGood_example =
    Reaches-IsGood lib empty last_hub
      (and_then
        (and_then (and_then (here empty) (begins (body_of request) "c1" "n1" 100 100 empty)) (
          completes (body_of reply) 110 110 110 110
            (begin_registration (body_of request) "c1" "n1" 100 100 empty).0))
        (deletes "did:roar:agent:alice" farewell 120
          (complete_challenge lib (body_of reply) 110 110 110 110
            (begin_registration (body_of request) "c1" "n1" 100 100 empty).0).0))
      (record { filed = empty-Filed; challenges = record { distinct = tt; bounded = omega arith } })
