-- ===== src/Autonomy/Cleanup.antt =====
-- That the cleanup takes no authorization away.
use roar_protocol.Base.{
  ℕ, String, ◌≡◌, refl, ap, ◌∙◌, true, false, none, some, List, [], ◌∷◌, arith, elem, Option-cases,
  inl, inr, str_dec,
}
use roar_protocol.Base.Dict.{
  Dict, lookup, insert, erase, keys_where, Distinct, lookup-insert, lookup-erase, elem-keys_where,
}
use roar_protocol.Autonomy.{
  AutonomyLevel, RuntimeToken, valid, invalid, Grants, granted_ids, suffices, any_suffices,
  is_authorized, remove_first, drop_token, drop_tokens, cleanup_expired,
}

-- The id is that of no token, or of one that is not valid at the time.
abbrev Idle : ℕ → String → Dict RuntimeToken → Type 0
Idle now id tokens = elim (lookup id tokens) [ none ↦ Unit | some t ↦ valid now t ≡ false ]

suffices-invalid :
    (now : ℕ) (capability : String) (least : AutonomyLevel) (t : RuntimeToken)
    → valid now t ≡ false
    → suffices now capability least t ≡ false
unfolding suffices
suffices-invalid now capability least t h = ground arith

any_suffices-remove_first :
    (now : ℕ) (capability : String) (least : AutonomyLevel) (tokens : Dict RuntimeToken)
    (id : String) (ids : List String)
    → Idle now id tokens
    → any_suffices now capability least tokens (remove_first id ids)
      ≡ any_suffices now capability least tokens ids
unfolding any_suffices remove_first
any_suffices-remove_first now capability least tokens id [] h = refl
any_suffices-remove_first now capability least tokens id (x ∷ ids) h =
    elim (Option-cases (lookup x tokens)) [
      | inl gone ↦ ground (arith, any_suffices-remove_first now capability least tokens id ids h)
      | inr (t, found) ↦ ground (
        arith,
        suffices-invalid now capability least t,
        any_suffices-remove_first now capability least tokens id ids h,
      )
    ]

any_suffices-erase :
    (now : ℕ) (capability : String) (least : AutonomyLevel) (tokens : Dict RuntimeToken)
    (id : String) (ids : List String)
    → Idle now id tokens
    → any_suffices now capability least (erase id tokens) ids
      ≡ any_suffices now capability least tokens ids
unfolding any_suffices
any_suffices-erase now capability least tokens id [] h = refl
any_suffices-erase now capability least tokens id (x ∷ ids) h =
    elim (Option-cases (lookup x tokens)) [
      | inl gone ↦
          ground (
            arith,
            lookup-erase x id tokens,
            any_suffices-erase now capability least tokens id ids h,
          )
      | inr (t, found) ↦ ground (
        arith,
        lookup-erase x id tokens,
        suffices-invalid now capability least t,
        any_suffices-erase now capability least tokens id ids h,
      )
    ]

drop_token-Idle :
    (now : ℕ) (j id : String) (s : Grants)
    → Idle now j s.tokens
    → Idle now j (drop_token id s).tokens
unfolding drop_token
drop_token-Idle now j id s h = elim (Option-cases (lookup id s.tokens)) [
  | inl gone ↦ ground (arith, h)
  | inr (t, found) ↦ ground (arith, h, lookup-erase j id s.tokens)
]

-- `any_suffices` on the list that the cleanup leaves for the grantee
list_after :
    (now : ℕ) (did capability : String) (least : AutonomyLevel) (id : String) (t : RuntimeToken)
    (ids : List String) (s : Grants)
    → Idle now id s.tokens
    → lookup t.grantee s.by_grantee ≡ some ids
    → any_suffices now capability least s.tokens (
        granted_ids did
          (record s { by_grantee = insert t.grantee (remove_first id ids) s.by_grantee }))
      ≡ any_suffices now capability least s.tokens (granted_ids did s)
list_after now did capability least id t ids s h k = elim (str_dec did t.grantee) [
  | yes e ↦ ground (
    arith,
    lookup-insert did t.grantee (remove_first id ids) s.by_grantee,
    any_suffices-remove_first now capability least s.tokens id ids h,
    ap (λ j. lookup j s.by_grantee) e,
  )
  | no n ↦ ground (arith, lookup-insert did t.grantee (remove_first id ids) s.by_grantee)
]

is_authorized-drop_token :
    (now : ℕ) (did capability : String) (least : AutonomyLevel) (id : String) (s : Grants)
    → Idle now id s.tokens
    → is_authorized now did capability least (drop_token id s)
      ≡ is_authorized now did capability least s
unfolding is_authorized drop_token
is_authorized-drop_token now did capability least id s h =
    elim (Option-cases (lookup id s.tokens)) [
      | inl gone ↦ ground (arith, gone)
      | inr (t, found) ↦ elim (Option-cases (lookup t.grantee s.by_grantee)) [
        | inl none_ ↦
            ground
              (arith, any_suffices-erase now capability least s.tokens id (granted_ids did s) h)
        | inr (ids, own) ↦
            let s' = record s {
              by_grantee = insert t.grantee (remove_first id ids) s.by_grantee;
            } in
            ground (
              arith,
              any_suffices-erase now capability least s.tokens id (granted_ids did s') h,
              list_after now did capability least id t ids s h own,
            )
      ]
    ]

is_authorized-drop_tokens :
    (now : ℕ) (did capability : String) (least : AutonomyLevel) (ids : List String) (s : Grants)
    → ((j : String) → elem j ids ≡ true → Idle now j s.tokens)
    → is_authorized now did capability least (drop_tokens ids s)
      ≡ is_authorized now did capability least s
unfolding drop_tokens
is_authorized-drop_tokens now did capability least [] s h = refl
is_authorized-drop_tokens now did capability least (x ∷ ids) s h =
    is_authorized-drop_tokens now did capability least ids (drop_token x s)
      (λ j m. drop_token-Idle now j x s (h j (ground arith)))
    ∙ is_authorized-drop_token now did capability least x s (h x (ground arith))

keys_where-Idle :
    (now : ℕ) (tokens : Dict RuntimeToken) (j : String)
    → Distinct tokens
    → elem j (keys_where (invalid now) tokens) ≡ true
    → Idle now j tokens
keys_where-Idle now tokens j d m = ground (arith, elem-keys_where j (invalid now) tokens d)

-- The cleanup changes no authorization at the time that it runs: it takes out only tokens that
-- are revoked or expired. No id has two tokens.
pub is_authorized-cleanup_expired :
    (now : ℕ) (did capability : String) (least : AutonomyLevel) (s : Grants)
    → Distinct s.tokens
    → is_authorized now did capability least (cleanup_expired now s).0
      ≡ is_authorized now did capability least s
unfolding cleanup_expired
is_authorized-cleanup_expired now did capability least s d =
    is_authorized-drop_tokens now did capability least (keys_where (invalid now) s.tokens) s
      (λ j m. keys_where-Idle now s.tokens j d m)
