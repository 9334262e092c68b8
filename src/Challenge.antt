-- ===== src/Challenge.antt =====
-- The hub's registration challenges, `ChallengeStore` of python/src/roar_sdk/hub_auth.py. The random
-- identifier and nonce are arguments; so are the readings of the clock, in whole seconds.
pub mod OneShot
mod Tests
use roar_protocol.Base.{
  ℕ, ◌+◌, ◌≤◌, ◌<◌, String, ◌≡◌, ◌≢◌, refl, Bool, true, false, Option, none, some, List, [], ◌∷◌,
  arith, ltb, leb, if◌then◌else◌, length, ◌==◌, Option-cases, inl, inr, Bool-cases,
}
use roar_protocol.Base.Dict.{
  Dict, lookup, insert, erase, erase_all, keys_where, Distinct, Distinct-insert, Distinct-erase,
  Distinct-erase_all, length-insert, length-erase-le, length-erase_all-le, lookup-insert,
  lookup-erase, lookup-erase_all, elem-keys_where,
}
use roar_protocol.Json.{Json}

pub record PendingChallenge : Type 0 where
  pub challenge_id : String
  pub did : String
  pub nonce : String
  pub expires_at : ℕ
  pub public_key : String
  pub card : Json

abbrev pub nonce_ttl : ℕ
nonce_ttl = 30

abbrev pub max_pending : ℕ
max_pending = 1000

abbrev pub Pending : Type 0
Pending = Dict PendingChallenge

abbrev pub overdue : ℕ → PendingChallenge → Bool
overdue now c = ltb c.expires_at now

unfoldable pub evict_expired : ℕ → Pending → Pending
evict_expired now pending = erase_all (keys_where (overdue now) pending) pending

abbrev pub new_challenge : String → String → Json → String → String → ℕ → PendingChallenge
new_challenge did public_key card challenge_id nonce now = record {
  challenge_id = challenge_id;
  did = did;
  nonce = nonce;
  expires_at = now + nonce_ttl;
  public_key = public_key;
  card = card;
}

-- The table and the new challenge, none where the call raises since the server is busy.
unfoldable pub issue :
    String → String → Json → String → String → ℕ → ℕ → Pending → Pending × Option PendingChallenge
unfolding evict_expired
issue did public_key card challenge_id nonce evicted_at now pending =
    let kept = evict_expired evicted_at pending in
    let challenge = new_challenge did public_key card challenge_id nonce now in
    if leb max_pending (length kept)
    then (kept, none)
    else (insert challenge_id challenge kept, some challenge)

unfoldable pub consume : String → ℕ → ℕ → Pending → Pending × Option PendingChallenge
unfolding evict_expired
consume challenge_id evicted_at now pending =
    let kept = evict_expired evicted_at pending in
    (
      erase challenge_id kept,
      elim (lookup challenge_id kept) [
        | none ↦ none
        | some c ↦ if ltb c.expires_at now then none else some c
      ],
    )
