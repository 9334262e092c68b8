-- ===== src/Audit/Query.antt =====
-- What a query of the audit log returns.
use roar_protocol.Base.{
  ◌<◌, ℕ, ◌+◌, ◌≤◌, String, ◌≡◌, Bool, true, List, [], ◌∷◌, arith, length, All,
}
use roar_protocol.Audit.{AuditEntry, AuditLog, selects, collect, reverse_onto, query}

module _ {D : Type 0} where
  collect_bounded :
      (p : AuditEntry D → Bool) (limit n : ℕ) (es : List (AuditEntry D))
      → n < limit
      → n + length (collect p limit n es) ≤ limit
  unfolding collect
  collect_bounded p limit n [] l = omega arith
  collect_bounded p limit n (e ∷ es) l =
      ground (arith, collect_bounded p limit n es, collect_bounded p limit (n + 1) es)

  collect_selected :
      (p : AuditEntry D → Bool) (limit n : ℕ) (es : List (AuditEntry D))
      → All (λ e. p e ≡ true) (collect p limit n es)
  unfolding collect
  collect_selected p limit n [] = tt
  collect_selected p limit n (e ∷ es) =
      ground (arith, collect_selected p limit n es, collect_selected p limit (n + 1) es)

  -- With a positive limit a query returns at most that many entries, and each of them passes every
  -- filter that is set.
  pub query_sound :
      (agent_did : String) (since : ℕ) (intent : String) (limit : ℕ) (log : AuditLog D)
      → 0 < limit
      → (length (query agent_did since intent limit log) ≤ limit)
        × All
            (λ e. selects agent_did since intent e ≡ true)
            (query agent_did since intent limit log)
  unfolding query
  query_sound agent_did since intent limit log l =
      let es = reverse_onto log.entries [] in
      let p : AuditEntry D → Bool = selects agent_did since intent in
      (omega (arith, collect_bounded p limit 0 es l), collect_selected p limit 0 es)
