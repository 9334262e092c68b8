-- ===== src/Challenge/OneShot.antt =====
-- The bound on pending challenges, and that a challenge is answered once.
use roar_protocol.Base.{
  ℕ, ◌+◌, ◌≤◌, String, ◌≡◌, ◌≢◌, none, some, List, [], ◌∷◌, arith, leb, if◌then◌else◌, length, inl,
  inr, Bool-cases, All,
}
use roar_protocol.Base.Dict.{
  lookup, erase_all, keys_where, Distinct, Distinct-insert, Distinct-erase, Distinct-erase_all,
  length-insert, length-erase-le, length-erase_all-le, lookup-insert, lookup-erase,
  lookup-erase_all, elem-keys_where, lookup-insert_self,
}
use roar_protocol.Json.{Json}
use roar_protocol.Challenge.{
  PendingChallenge, Pending, nonce_ttl, max_pending, overdue, evict_expired, new_challenge, issue,
  consume,
}

-- Each identifier once, and at most `max_pending` challenges.
pub record IsValid (pending : Pending) : Type 0 where
  pub distinct : Distinct pending
  pub bounded : length pending ≤ max_pending

evict_expired-IsValid : (now : ℕ) (p : Pending) → IsValid p → IsValid (evict_expired now p)
unfolding evict_expired
evict_expired-IsValid now p v = record {
  distinct = Distinct-erase_all (keys_where (overdue now) p) p v.distinct;
  bounded = omega (arith, length-erase_all-le (keys_where (overdue now) p) p, v.bounded);
}

-- The client's calls: an issue with its identifier, or a consume.
pub data Op : Type 0 where
  issue_op : String → String → Json → String → String → ℕ → ℕ → Op
  consume_op : String → ℕ → ℕ → Op

unfoldable pub apply : Op → Pending → Pending
apply (issue_op did key card id nonce a n) p = (issue did key card id nonce a n p).0
apply (consume_op id a n) p = (consume id a n p).0

unfoldable pub serve : List Op → Pending → Pending
serve [] p = p
serve (o ∷ os) p = serve os (apply o p)

apply-IsValid : (o : Op) (p : Pending) → IsValid p → IsValid (apply o p)
unfolding apply issue consume
apply-IsValid (issue_op did key card id nonce a n) p v =
    let v' = evict_expired-IsValid a p v in
    let kept = evict_expired a p in
    let c = new_challenge did key card id nonce n in
    ground (arith, v', Distinct-insert id c kept v'.distinct, length-insert id c kept)
apply-IsValid (consume_op id a n) p v =
    let v' = evict_expired-IsValid a p v in
    let kept = evict_expired a p in
    record {
      distinct = Distinct-erase id kept v'.distinct;
      bounded = omega (arith, length-erase-le id kept, v'.bounded);
    }

-- After any sequence of calls a valid table is valid: every identifier is held once, and at most a
-- thousand challenges are pending.
pub serve-IsValid : (os : List Op) (p : Pending) → IsValid p → IsValid (serve os p)
unfolding serve
serve-IsValid [] p v = v
serve-IsValid (o ∷ os) p v = serve-IsValid os (apply o p) (apply-IsValid o p v)

lookup-evict_expired :
    (now : ℕ) (id : String) (p : Pending)
    → IsValid p
    → lookup id (evict_expired now p)
      ≡ elim (lookup id p) [ none ↦ none | some c ↦ if overdue now c then none else some c ]
unfolding evict_expired
lookup-evict_expired now id p v = ground (
  arith,
  lookup-erase_all id (keys_where (overdue now) p) p,
  elem-keys_where id (overdue now) p v.distinct,
)

-- What `consume` returns was pending under that identifier and is not past its expiry.
pub consume-some :
    (id : String) (a now : ℕ) (p : Pending) (c : PendingChallenge)
    → IsValid p
    → (consume id a now p).1 ≡ some c
    → (lookup id p ≡ some c) × (now ≤ c.expires_at)
unfolding consume
consume-some id a now p c v h = ground (arith, lookup-evict_expired a id p v)

lookup-issue :
    (did key id nonce : String) (card : Json) (a now : ℕ) (p : Pending)
    → (issue did key card id nonce a now p).1 ≢ none
    → lookup id (issue did key card id nonce a now p).0
      ≡ some (new_challenge did key card id nonce now)
unfolding issue
lookup-issue did key id nonce card a now p h =
    let c = new_challenge did key card id nonce now in
    elim (Bool-cases (leb max_pending (length (evict_expired a p)))) [
      | inl busy ↦ absurd (h (ground arith))
      | inr room ↦ ground (arith, lookup-insert_self id c (evict_expired a p))
    ]

consume-live :
    (id : String) (a now : ℕ) (p : Pending) (c : PendingChallenge)
    → IsValid p
    → lookup id p ≡ some c
    → a ≤ c.expires_at
    → now ≤ c.expires_at
    → (consume id a now p).1 ≡ some c
unfolding consume
consume-live id a now p c v h l l' = ground (arith, lookup-evict_expired a id p v)

-- A challenge that was issued can be answered until its lifetime of 30 seconds is over, with the
-- nonce, key and card of its issue; the table is valid, and the clock does not run backwards.
pub consume-issue :
    (did key id nonce : String) (card : Json) (a now a' now' : ℕ) (p : Pending)
    → IsValid p
    → (issue did key card id nonce a now p).1 ≢ none
    → a' ≤ now'
    → now' ≤ now + nonce_ttl
    → (consume id a' now' (issue did key card id nonce a now p).0).1
      ≡ some (new_challenge did key card id nonce now)
unfolding apply
consume-issue did key id nonce card a now a' now' p v h order live =
    let c = new_challenge did key card id nonce now in
    consume-live id a' now' (issue did key card id nonce a now p).0 c
      (apply-IsValid (issue_op did key card id nonce a now) p v)
      (lookup-issue did key id nonce card a now p h) (omega arith) (omega arith)

-- The call issues another identifier, or none.
abbrev pub Spares : String → Op → Type 0
Spares id (issue_op did key card id' nonce a n) = id ≢ id'
Spares id (consume_op id' a n) = Unit

absent-apply :
    (id : String) (o : Op) (p : Pending)
    → Spares id o
    → lookup id p ≡ none
    → lookup id (apply o p) ≡ none
unfolding apply issue consume evict_expired
absent-apply id (issue_op did key card id' nonce a n) p other h = ground (
  arith,
  lookup-erase_all id (keys_where (overdue a) p) p,
  lookup-insert id id' (new_challenge did key card id' nonce n)
      (erase_all (keys_where (overdue a) p) p),
)
absent-apply id (consume_op id' a n) p other h = ground (
  arith,
  lookup-erase_all id (keys_where (overdue a) p) p,
  lookup-erase id id' (erase_all (keys_where (overdue a) p) p),
)

absent-serve :
    (id : String) (os : List Op) (p : Pending)
    → All (Spares id) os
    → lookup id p ≡ none
    → lookup id (serve os p) ≡ none
unfolding serve
absent-serve id [] p s h = h
absent-serve id (o ∷ os) p s h = absent-serve id os (apply o p) s.1 (absent-apply id o p s.0 h)

consume-absent :
    (id : String) (a now : ℕ) (p : Pending) → lookup id p ≡ none → (consume id a now p).1 ≡ none
unfolding consume evict_expired
consume-absent id a now p h = ground (arith, lookup-erase_all id (keys_where (overdue a) p) p)

absent-consume : (id : String) (a now : ℕ) (p : Pending) → lookup id (consume id a now p).0 ≡ none
unfolding consume
absent-consume id a now p = ground (arith, lookup-erase id id (evict_expired a p))

-- An identifier that was consumed, whatever the outcome, is not answered again: every later
-- `consume` of it returns none, after any calls that do not issue it anew.
pub consume-once :
    (id : String) (a now : ℕ) (os : List Op) (a' now' : ℕ) (p : Pending)
    → All (Spares id) os
    → (consume id a' now' (serve os (consume id a now p).0)).1 ≡ none
consume-once id a now os a' now' p s =
    consume-absent id a' now' (serve os (consume id a now p).0)
      (absent-serve id os (consume id a now p).0 s (absent-consume id a now p))
