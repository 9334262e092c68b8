-- ===== src/Audit/Chain.antt =====
-- A log that is only appended to verifies.
use roar_protocol.Base.{
  ℕ, ◌+◌, String, ◌≡◌, refl, ◌⊎◌, inl, inr, Bool-cases, true, none, some, Option, List, [], ◌∷◌,
  ◌++◌, arith, if◌then◌else◌, length, nonempty,
}
use roar_protocol.Types.{RoarMessage}
use roar_protocol.Audit.{
  AuditEntry, Crypto, AuditLog, Content, tip, new_content, signature_of, signed_entry,
  record_message, verify_from, verify_chain,
}

module _ {D : Type 0} (c : Crypto D) where
  verify_from-append :
      (key : String) (prev : D) (es : List (AuditEntry D)) (e : AuditEntry D)
      → verify_from c key prev es ≡ none
      → verify_from c key (tip prev es) (e ∷ []) ≡ none
      → verify_from c key prev (es ++ e ∷ []) ≡ none
  unfolding verify_from
  verify_from-append key prev [] e h k = k
  verify_from-append key prev (x ∷ es) e h k =
      ground (arith, verify_from-append key x.entry_hash es e)

  -- The keys of a log belong together: the private key signs every digest, and the public key
  -- verifies what it signs.
  abbrev pub KeyPair : String → String → Type 0
  KeyPair private_key key =
      (h : D)
      → (sig : String) × (c.sign_entry h private_key ≡ some sig)
        × (c.verifies h sig key ≡ some true)

  -- a signature for a digest, which verifies
  signature-KeyPair :
      (private_key key : String) (h : D)
      → KeyPair private_key key
      → (sig : String) × (signature_of c h private_key ≡ some sig)
        × (sig ≡ "" ⊎ c.verifies h sig key ≡ some true)
  signature-KeyPair private_key key h pair = elim (Bool-cases (nonempty private_key)) [
    | inl full ↦ let (sig, made, good) = pair h in (sig, ground (arith, made), inr good)
    | inr bare ↦ ("", ground arith, inl refl)
  ]

  verify_from-signed_entry :
      (key : String) (prev : D) (content : Content D) (sig : String)
      → content.prev_hash ≡ prev
      → sig ≡ "" ⊎ c.verifies (c.hash_entry content) sig key ≡ some true
      → verify_from c key prev (signed_entry c content sig ∷ []) ≡ none
  unfolding verify_from
  verify_from-signed_entry key prev content sig link (inl bare) = rw bare (ground (arith, link))
  verify_from-signed_entry key prev content sig link (inr good) = ground (arith, link, good)

  record_message-signed :
      (m : RoarMessage) (trace_id : String) (now : ℕ) (log : AuditLog D) (sig : String)
      → let content = new_content c m trace_id now log in
        signature_of c (c.hash_entry content) log.private_key ≡ some sig
        → record_message c m trace_id now log
          ≡ some (record log { entries = log.entries ++ signed_entry c content sig ∷ [] })
  unfolding record_message
  record_message-signed m trace_id now log sig made = rw (made, record_message) refl

  -- `record` succeeds under a fitting pair of keys and keeps an intact chain intact, and its entry
  -- takes the next number.
  pub verify_chain-record_message :
      (key : String) (m : RoarMessage) (trace_id : String) (now : ℕ) (log : AuditLog D)
      → KeyPair log.private_key (if nonempty key then key else log.public_key)
      → verify_chain c key log ≡ none
      → (e : AuditEntry D) × (record_message c m trace_id now log
          ≡ some (record log { entries = log.entries ++ e ∷ [] }))
        × (e.content.sequence ≡ length log.entries)
        × (verify_chain c key (record log { entries = log.entries ++ e ∷ [] }) ≡ none)
  unfolding verify_chain record_message new_content
  verify_chain-record_message key m trace_id now log pair h =
      let used : String = if nonempty key then key else log.public_key in
      let content = new_content c m trace_id now log in
      let (sig, made, good) = signature-KeyPair log.private_key used (c.hash_entry content) pair in
      (
        signed_entry c content sig,
        record_message-signed m trace_id now log sig made,
        refl,
        verify_from-append used c.genesis log.entries (signed_entry c content sig) h
            (verify_from-signed_entry used (tip c.genesis log.entries) content sig refl good),
      )

  -- One call of `record`: the message, the trace and the clock.
  pub record Event : Type 0 where
    pub message : RoarMessage
    pub trace : String
    pub at : ℕ

  -- the calls one after the other, until one raises
  unfoldable pub record_all : List Event → AuditLog D → Option (AuditLog D)
  record_all [] log = some log
  record_all (e ∷ es) log = elim (record_message c e.message e.trace e.at log) [
    | none ↦ none
    | some log' ↦ record_all es log'
  ]

  length-append_one :
      (es : List (AuditEntry D)) (e : AuditEntry D) → length (es ++ e ∷ []) ≡ length es + 1
  length-append_one [] e = refl
  length-append_one (x ∷ es) e = omega (arith, length-append_one es e)

  -- The entries are numbered from `n` on.
  abbrev pub IsNumbered : ℕ → List (AuditEntry D) → Type 0
  IsNumbered n [] = Unit
  IsNumbered n (e ∷ es) = (e.content.sequence ≡ n) × IsNumbered (n + 1) es

  IsNumbered-append :
      (n : ℕ) (es : List (AuditEntry D)) (e : AuditEntry D)
      → IsNumbered n es
      → e.content.sequence ≡ n + length es
      → IsNumbered n (es ++ e ∷ [])
  IsNumbered-append n [] e h k = (omega arith, tt)
  IsNumbered-append n (x ∷ es) e h k = (h.0, IsNumbered-append (n + 1) es e h.1 (omega arith))

  record_all-cons :
      (e : Event) (es : List Event) (log log' last : AuditLog D)
      → record_message c e.message e.trace e.at log ≡ some log'
      → record_all es log' ≡ some last
      → record_all (e ∷ es) log ≡ some last
  unfolding record_all
  record_all-cons e es log log' last made ran = rw (made, record_all) ran

  record_all-intact :
      (key : String) (es : List Event) (log : AuditLog D)
      → KeyPair log.private_key (if nonempty key then key else log.public_key)
      → verify_chain c key log ≡ none
      → IsNumbered 0 log.entries
      → (log' : AuditLog D) × (record_all es log ≡ some log')
        × (verify_chain c key log' ≡ none)
        × IsNumbered 0 log'.entries
        × (length log'.entries ≡ length log.entries + length es)
  unfolding record_all
  record_all-intact key [] log pair h n = (log, refl, h, n, omega arith)
  record_all-intact key (e ∷ es) log pair h n =
      let (x, made, number, kept) =
        verify_chain-record_message key e.message e.trace e.at log pair h in
      let log' : AuditLog D = record log { entries = log.entries ++ x ∷ [] } in
      let (last, ran, good, numbered, count) =
        record_all-intact key es log' pair kept
          (IsNumbered-append 0 log.entries x n (omega (arith, number))) in
      (
        last,
        record_all-cons e es log log' last made ran,
        good,
        numbered,
        omega (arith, count, length-append_one log.entries x),
      )

  -- A log that begins empty can be written by `record` any number of times under a fitting pair of
  -- keys; it then always verifies, under its own public key or one that is given, and has one entry
  -- for each call, numbered from 0.
  pub record_all-verifies :
      (key : String) (es : List Event) (private_key public_key : String)
      → KeyPair private_key (if nonempty key then key else public_key)
      → let log : AuditLog D = record {
        private_key = private_key;
        public_key = public_key;
        entries = [];
      } in
        (log' : AuditLog D) × (record_all es log ≡ some log')
        × (verify_chain c key log' ≡ none)
        × IsNumbered 0 log'.entries
        × (length log'.entries ≡ length es)
  unfolding verify_chain verify_from
  record_all-verifies key es private_key public_key pair =
      let (log', ran, good, numbered, count) =
        record_all-intact key es
          (record { private_key = private_key; public_key = public_key; entries = [] }) pair refl
          tt in
      (log', ran, good, numbered, omega (arith, count))
