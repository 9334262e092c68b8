-- ===== src/Autonomy/Soundness.antt =====
-- What an authorization rests on, how far it agrees with the autonomy level, and revocation.
use roar_protocol.Base.{
  Bool-cases, ℕ, ◌+◌, ◌≤◌, ◌<◌, String, ◌≡◌, refl, ap, ◌↔◌, true, false, ◌||◌, some, List, [], ◌∷◌,
  ◌++◌, arith, elem, Option-cases, inl, inr, str_dec,
}
use roar_protocol.Base.Dict.{Dict, lookup, lookup-insert}
use roar_protocol.Autonomy.{
  AutonomyLevel, index, RuntimeToken, valid, expired, allows, Grants, Request, granted_ids,
  new_token, grant, suffices, any_suffices, is_authorized, highest_from, get_autonomy_level,
}

-- A token among some ids that suffices for a capability at a level.
pub record Granted (now : ℕ) (capability : String) (least : AutonomyLevel)
    (tokens : Dict RuntimeToken) (ids : List String) : Type 0 where
  pub id : String
  pub token : RuntimeToken
  pub listed : elem id ids ≡ true
  pub kept : lookup id tokens ≡ some token
  pub live : (token.revoked ≡ false) × (expired now token ≡ false)
  pub capable : elem capability token.capabilities || elem "*" token.capabilities ≡ true
  pub level : index least ≤ index token.autonomy_level

suffices-true :
    (now : ℕ) (capability : String) (least : AutonomyLevel) (t : RuntimeToken)
    → suffices now capability least t ≡ true
    → ((t.revoked ≡ false) × (expired now t ≡ false))
      × (elem capability t.capabilities || elem "*" t.capabilities ≡ true)
      × (index least ≤ index t.autonomy_level)
unfolding suffices allows
suffices-true now capability least t h = ground arith

true-suffices :
    (now : ℕ) (capability : String) (least : AutonomyLevel) (t : RuntimeToken)
    → (t.revoked ≡ false) × (expired now t ≡ false)
    → elem capability t.capabilities || elem "*" t.capabilities ≡ true
    → index least ≤ index t.autonomy_level
    → suffices now capability least t ≡ true
unfolding suffices allows
true-suffices now capability least t h c l = ground arith

later :
    (now : ℕ) (capability : String) (least : AutonomyLevel) (tokens : Dict RuntimeToken)
    (x : String) (ids : List String)
    → Granted now capability least tokens ids
    → Granted now capability least tokens (x ∷ ids)
later now capability least tokens x ids g = record {
  id = g.id;
  token = g.token;
  listed = ground (arith, g.listed);
  kept = g.kept;
  live = g.live;
  capable = g.capable;
  level = g.level;
}

any_suffices-Granted :
    (now : ℕ) (capability : String) (least : AutonomyLevel) (tokens : Dict RuntimeToken)
    (ids : List String)
    → any_suffices now capability least tokens ids ≡ true
    → Granted now capability least tokens ids
unfolding any_suffices
any_suffices-Granted now capability least tokens [] h = absurd (ground arith)
any_suffices-Granted now capability least tokens (x ∷ ids) h =
    elim (Option-cases (lookup x tokens)) [
      | inl gone ↦
          later now capability least tokens x ids
            (any_suffices-Granted now capability least tokens ids (ground arith))
      | inr (t, found) ↦ elim (Bool-cases (suffices now capability least t)) [
        | inl yes_ ↦
            let parts = suffices-true now capability least t yes_ in
            record {
              id = x;
              token = t;
              listed = ground arith;
              kept = found;
              live = parts.0;
              capable = parts.1;
              level = parts.2;
            }
        | inr no_ ↦
            later now capability least tokens x ids
              (any_suffices-Granted now capability least tokens ids (ground arith))
      ]
    ]

any_suffices-found :
    (now : ℕ) (capability : String) (least : AutonomyLevel) (tokens : Dict RuntimeToken)
    (ids : List String) (id : String) (t : RuntimeToken)
    → elem id ids ≡ true
    → lookup id tokens ≡ some t
    → suffices now capability least t ≡ true
    → any_suffices now capability least tokens ids ≡ true
unfolding any_suffices
any_suffices-found now capability least tokens [] id t m k s = absurd (ground arith)
any_suffices-found now capability least tokens (x ∷ ids) id t m k s = elim (str_dec id x) [
  | yes e ↦ ground (arith, ap (λ j. lookup j tokens) e)
  | no n ↦ ground (arith, any_suffices-found now capability least tokens ids id t)
]

-- An agent is authorized for a capability at a level exactly when one of the ids that were granted
-- to it leads to a token that is neither revoked nor expired, that names the capability or `*`,
-- and whose level is at least the one that is asked for.
pub is_authorized_iff :
    (now : ℕ) (did capability : String) (least : AutonomyLevel) (s : Grants)
    → (is_authorized now did capability least s ≡ true)
      ↔ Granted now capability least s.tokens (granted_ids did s)
unfolding is_authorized
is_authorized_iff now did capability least s = (
  any_suffices-Granted now capability least s.tokens (granted_ids did s),
  λ g.
      any_suffices-found now capability least s.tokens (granted_ids did s) g.id g.token g.listed
        g.kept (true-suffices now capability least g.token g.live g.capable g.level),
)

highest_from-le :
    (now : ℕ) (tokens : Dict RuntimeToken) (ids : List String) (highest : AutonomyLevel)
    → index highest ≤ index (highest_from now tokens ids highest)
unfolding highest_from
highest_from-le now tokens [] highest = omega arith
highest_from-le now tokens (x ∷ ids) highest = elim (Option-cases (lookup x tokens)) [
  | inl gone ↦ ground (arith, highest_from-le now tokens ids highest)
  | inr (t, found) ↦ ground (
    arith,
    highest_from-le now tokens ids highest,
    highest_from-le now tokens ids t.autonomy_level,
  )
]

highest_from-listed :
    (now : ℕ) (tokens : Dict RuntimeToken) (ids : List String) (highest : AutonomyLevel)
    (id : String) (t : RuntimeToken)
    → elem id ids ≡ true
    → lookup id tokens ≡ some t
    → valid now t ≡ true
    → index t.autonomy_level ≤ index (highest_from now tokens ids highest)
unfolding highest_from
highest_from-listed now tokens [] highest id t m k v = absurd (ground arith)
highest_from-listed now tokens (x ∷ ids) highest id t m k v = elim (str_dec id x) [
  | yes e ↦ ground (
    arith,
    ap (λ j. lookup j tokens) e,
    highest_from-le now tokens ids highest,
    highest_from-le now tokens ids t.autonomy_level,
  )
  | no n ↦ elim (Option-cases (lookup x tokens)) [
    | inl gone ↦ ground (arith, highest_from-listed now tokens ids highest id t)
    | inr (u, found) ↦ ground (
      arith,
      highest_from-listed now tokens ids highest id t,
      highest_from-listed now tokens ids u.autonomy_level id t,
    )
  ]
]

-- An agent that is authorized for some capability at a level has at least this level as its
-- autonomy level at the same time.
pub is_authorized-get_autonomy_level :
    (now : ℕ) (did capability : String) (least : AutonomyLevel) (s : Grants)
    → is_authorized now did capability least s ≡ true
    → index least ≤ index (get_autonomy_level now did s)
unfolding get_autonomy_level
is_authorized-get_autonomy_level now did capability least s h =
    let g = (is_authorized_iff now did capability least s).0 h in
    omega (
      arith,
      g.level,
      highest_from-listed now s.tokens (granted_ids did s) AutonomyLevel.watch g.id g.token g.listed
          g.kept (ground (arith, g.live)),
    )

elem-append_last : (x : String) (xs : List String) → elem x (xs ++ x ∷ []) ≡ true
elem-append_last x [] = ground arith
elem-append_last x (y ∷ ys) = ground (arith, elem-append_last x ys)

-- A grant authorizes its grantee for each of its capabilities, up to its level, until its lifetime
-- is over, or for good if the lifetime is 0.
pub is_authorized-grant :
    (r : Request) (id capability : String) (least : AutonomyLevel) (at issued_at now : ℕ)
    (s : Grants)
    → elem capability r.capabilities ≡ true
    → index least ≤ index r.autonomy_level
    → (0 < r.ttl → now ≤ at + r.ttl)
    → is_authorized now r.grantee capability least (grant r id at issued_at s).0 ≡ true
unfolding grant
is_authorized-grant r id capability least at issued_at now s c l live =
    let t = new_token r id at issued_at in
    let ids = granted_ids r.grantee s ++ id ∷ [] in
    (is_authorized_iff now r.grantee capability least (grant r id at issued_at s).0).1 (record {
      id = id;
      token = t;
      listed = ground (
        arith,
        lookup-insert r.grantee r.grantee ids s.by_grantee,
        elem-append_last id (granted_ids r.grantee s),
      );
      kept = ground (arith, lookup-insert id id t s.tokens);
      live = (refl, ground arith);
      capable = ground arith;
      level = l;
    })
