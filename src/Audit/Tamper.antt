-- ===== src/Audit/Tamper.antt =====
-- What `verify_chain` protects, and what it does not.
use roar_protocol.Base.{String, ◌≡◌, refl, none, List, [], ◌∷◌, arith, length, map}
use roar_protocol.Audit.{Content, AuditEntry, Crypto, AuditLog, tip, verify_from, verify_chain}

module _ {D : Type 0} (c : Crypto D) where
  -- No two entries that stand at the same place and differ have one digest.
  abbrev pub CollisionFree : List (AuditEntry D) → List (AuditEntry D) → Type 0
  CollisionFree [] _ = Unit
  CollisionFree (e ∷ es) [] = Unit
  CollisionFree (e ∷ es) (e' ∷ es') =
      (c.hash_entry e.content ≡ c.hash_entry e'.content → e.content ≡ e'.content)
      × CollisionFree es es'

  verify_from-links :
      (key : String) (prev : D) (e : AuditEntry D) (es : List (AuditEntry D))
      → verify_from c key prev (e ∷ es) ≡ none
      → (e.content.prev_hash ≡ prev)
        × (e.entry_hash ≡ c.hash_entry e.content)
        × (verify_from c key e.entry_hash es ≡ none)
  unfolding verify_from
  verify_from-links key prev e es h = ground arith

  abbrev pub contents : List (AuditEntry D) → List (Content D)
  contents = map (λ e. e.content)

  same_tip :
      (key key' : String) (prev prev' : D) (es es' : List (AuditEntry D))
      → CollisionFree es es'
      → verify_from c key prev es ≡ none
      → verify_from c key' prev' es' ≡ none
      → length es ≡ length es'
      → tip prev es ≡ tip prev' es'
      → (prev ≡ prev') × (contents es ≡ contents es')
  same_tip key key' prev prev' [] [] free h h' l t = (t, refl)
  same_tip key key' prev prev' [] (e ∷ es) free h h' l t = absurd (omega arith)
  same_tip key key' prev prev' (e ∷ es) [] free h h' l t = absurd (omega arith)
  same_tip key key' prev prev' (e ∷ es) (e' ∷ es') free h h' l t =
      let links = verify_from-links key prev e es h in
      let links' = verify_from-links key' prev' e' es' h' in
      let rest =
        same_tip key key' e.entry_hash e'.entry_hash es es' free.1 links.2 links'.2 (omega arith)
          t in
      ground (arith, free.0, links, links', rest)

  -- Two logs of the same length that verify and end in the same digest record the same contents
  -- throughout, if no two differing entries at one place share a digest: to change, drop, add or reorder an entry behind a
  -- known last digest and length is detected.
  pub verify_chain_tamper_evident :
      (key key' : String) (log log' : AuditLog D)
      → CollisionFree log.entries log'.entries
      → verify_chain c key log ≡ none
      → verify_chain c key' log' ≡ none
      → length log.entries ≡ length log'.entries
      → tip c.genesis log.entries ≡ tip c.genesis log'.entries
      → contents log.entries ≡ contents log'.entries
  unfolding verify_chain
  verify_chain_tamper_evident key key' log log' free h h' l t =
      (same_tip _ _ c.genesis c.genesis log.entries log'.entries free h h' l t).1

  -- The entries without their signatures.
  abbrev pub unsigned : AuditEntry D → AuditEntry D
  unsigned e = record e { signature = "" }

  unsigned_accepted :
      (key key' : String) (prev : D) (es : List (AuditEntry D))
      → verify_from c key prev es ≡ none
      → verify_from c key' prev (map unsigned es) ≡ none
  unfolding verify_from
  unsigned_accepted key key' prev [] h = refl
  unsigned_accepted key key' prev (e ∷ es) h =
      ground (arith, unsigned_accepted key key' e.entry_hash es)

  -- Signatures are checked only where they are present: with every signature removed, a log that
  -- verified still verifies, under every public key.
  pub verify_chain-unsigned :
      (key key' : String) (log : AuditLog D)
      → verify_chain c key log ≡ none
      → verify_chain c key' (record log { entries = map unsigned log.entries }) ≡ none
  unfolding verify_chain
  verify_chain-unsigned key key' log h = unsigned_accepted _ _ c.genesis log.entries h
