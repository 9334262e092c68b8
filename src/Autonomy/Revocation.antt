-- ===== src/Autonomy/Revocation.antt =====
-- That a revocation lasts.
use roar_protocol.Base.{
  ℕ, String, ◌≡◌, ◌≢◌, true, false, none, some, List, [], ◌∷◌, arith, Option-cases, inl, inr, All,
}
use roar_protocol.Base.Dict.{lookup, keys_where, lookup-insert, lookup-erase}
use roar_protocol.Autonomy.{
  RuntimeToken, valid, invalid, Grants, Request, new_token, grant, revoke, drop_token, drop_tokens,
  cleanup_expired,
}

-- The calls that change the state.
pub data Op : Type 0 where
  grant_op : Request → String → ℕ → ℕ → Op
  revoke_op : String → Op
  cleanup_op : ℕ → Op

unfoldable pub apply : Op → Grants → Grants
apply (grant_op r id at issued_at) s = (grant r id at issued_at s).0
apply (revoke_op id) s = (revoke id s).0
apply (cleanup_op now) s = (cleanup_expired now s).0

unfoldable pub run : List Op → Grants → Grants
run [] s = s
run (o ∷ os) s = run os (apply o s)

-- The id is that of no token, or of one that is revoked.
abbrev pub Dead : String → Grants → Type 0
Dead id s = elim (lookup id s.tokens) [ none ↦ Unit | some t ↦ t.revoked ≡ true ]

-- A grant draws another id.
abbrev pub Spares : String → Op → Type 0
Spares id (grant_op r id' at issued_at) = id ≢ id'
Spares id (revoke_op id') = Unit
Spares id (cleanup_op now) = Unit

drop_token-Dead : (id id' : String) (s : Grants) → Dead id s → Dead id (drop_token id' s)
unfolding drop_token
drop_token-Dead id id' s d = elim (Option-cases (lookup id' s.tokens)) [
  | inl gone ↦ ground (arith, d)
  | inr (t, found) ↦ ground (arith, d, lookup-erase id id' s.tokens)
]

drop_tokens-Dead :
    (id : String) (ids : List String) (s : Grants) → Dead id s → Dead id (drop_tokens ids s)
unfolding drop_tokens
drop_tokens-Dead id [] s d = d
drop_tokens-Dead id (x ∷ ids) s d =
    drop_tokens-Dead id ids (drop_token x s) (drop_token-Dead id x s d)

apply-Dead : (id : String) (o : Op) (s : Grants) → Spares id o → Dead id s → Dead id (apply o s)
unfolding apply grant revoke cleanup_expired
apply-Dead id (grant_op r id' at issued_at) s n d =
    ground (arith, n, d, lookup-insert id id' (new_token r id' at issued_at) s.tokens)
apply-Dead id (revoke_op id') s n d = elim (Option-cases (lookup id' s.tokens)) [
  | inl gone ↦ ground (arith, d)
  | inr (t, found) ↦ ground (arith, d, lookup-insert id id' (record t { revoked = true }) s.tokens)
]
apply-Dead id (cleanup_op now) s n d = drop_tokens-Dead id (keys_where (invalid now) s.tokens) s d

run-Dead :
    (id : String) (os : List Op) (s : Grants) → All (Spares id) os → Dead id s → Dead id (run os s)
unfolding run
run-Dead id [] s n d = d
run-Dead id (o ∷ os) s n d = run-Dead id os (apply o s) n.1 (apply-Dead id o s n.0 d)

revoke-Dead : (id : String) (s : Grants) → Dead id (revoke id s).0
unfolding revoke
revoke-Dead id s = elim (Option-cases (lookup id s.tokens)) [
  | inl gone ↦ ground arith
  | inr (t, found) ↦ ground (arith, lookup-insert id id (record t { revoked = true }) s.tokens)
]

Dead-valid :
    (id : String) (now : ℕ) (s : Grants) (t : RuntimeToken)
    → Dead id s
    → lookup id s.tokens ≡ some t
    → valid now t ≡ false
Dead-valid id now s t d k = ground (arith, d)

-- A token that was revoked is never valid again, at any time and after any calls that do not draw
-- its id for another grant.
pub revoke-run :
    (id : String) (os : List Op) (now : ℕ) (s : Grants) (t : RuntimeToken)
    → All (Spares id) os
    → lookup id (run os (revoke id s).0).tokens ≡ some t
    → valid now t ≡ false
revoke-run id os now s t n k =
    Dead-valid id now (run os (revoke id s).0) t
      (run-Dead id os (revoke id s).0 n (revoke-Dead id s)) k
