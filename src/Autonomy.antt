-- ===== src/Autonomy.antt =====
-- Runtime grants of capabilities, `CapabilityDelegation` of python/src/roar_sdk/autonomy.py. Token
-- ids are arguments, and so are the readings of the clock, in whole seconds; one pass over tokens
-- reads it once. Constraints are kept and never read by the code.
pub mod Soundness
pub mod Revocation
pub mod Cleanup
mod Tests
use roar_protocol.Base.{
  ℕ, ◌+◌, String, Bool, true, false, ◌&&◌, ◌||◌, not, Option, none, some, List, [], ◌∷◌, ◌++◌, ltb,
  leb, elem, ◌==◌, if◌then◌else◌, length, nonempty,
}
use roar_protocol.Base.Dict.{keys_where, Dict, lookup, insert, erase, values}
use roar_protocol.Json.{Json}

pub data AutonomyLevel : Type 0 where
  watch guide delegate autonomous : AutonomyLevel

-- `_AUTONOMY_ORDER.index(level)`
unfoldable pub index : AutonomyLevel → ℕ
index watch = 0
index guide = 1
index delegate = 2
index autonomous = 3

unfoldable pub can_act : AutonomyLevel → Bool
can_act delegate = true
can_act autonomous = true
can_act _ = false

unfoldable pub requires_approval : AutonomyLevel → Bool
requires_approval watch = true
requires_approval guide = true
requires_approval _ = false

pub record RuntimeToken : Type 0 where
  pub id : String
  pub grantor : String
  pub grantee : String
  pub capabilities : List String
  pub autonomy_level : AutonomyLevel
  pub constraints : Dict Json
  pub issued_at : ℕ
  pub expires_at : ℕ
  pub revoked : Bool

-- `expires_at` of 0 is no expiry
abbrev pub expired : ℕ → RuntimeToken → Bool
expired now t = ltb 0 t.expires_at && ltb t.expires_at now

abbrev pub valid : ℕ → RuntimeToken → Bool
valid now t = not t.revoked && not (expired now t)

unfoldable pub allows : ℕ → String → RuntimeToken → Bool
allows now capability t =
    if valid now t then elem capability t.capabilities || elem "*" t.capabilities else false

pub record Grants : Type 0 where
  pub tokens : Dict RuntimeToken
  pub by_grantee : Dict (List String)

unfoldable pub empty : Grants
empty = record { tokens = []; by_grantee = [] }

-- `self._by_grantee.get(did, [])`
abbrev pub granted_ids : String → Grants → List String
granted_ids did s = elim (lookup did s.by_grantee) [ none ↦ [] | some ids ↦ ids ]

-- The arguments of `grant`.
pub record Request : Type 0 where
  pub grantor : String
  pub grantee : String
  pub capabilities : List String
  pub autonomy_level : AutonomyLevel
  pub constraints : Dict Json
  pub ttl : ℕ

abbrev pub new_token : Request → String → ℕ → ℕ → RuntimeToken
new_token r id expiry_at issued_at = record {
  id = id;
  grantor = r.grantor;
  grantee = r.grantee;
  capabilities = r.capabilities;
  autonomy_level = r.autonomy_level;
  constraints = r.constraints;
  issued_at = issued_at;
  expires_at = if ltb 0 r.ttl then expiry_at + r.ttl else 0;
  revoked = false;
}

unfoldable pub grant : Request → String → ℕ → ℕ → Grants → Grants × RuntimeToken
grant r id expiry_at issued_at s =
    let t = new_token r id expiry_at issued_at in
    (
      record {
        tokens = insert id t s.tokens;
        by_grantee = insert r.grantee (granted_ids r.grantee s ++ id ∷ []) s.by_grantee;
      },
      t,
    )

unfoldable pub revoke : String → Grants → Grants × Bool
revoke id s = elim (lookup id s.tokens) [
  | none ↦ (s, false)
  | some t ↦ (record s { tokens = insert id (record t { revoked = true }) s.tokens }, true)
]

-- whether one token authorizes, in the loop of `is_authorized`
unfoldable pub suffices : ℕ → String → AutonomyLevel → RuntimeToken → Bool
unfolding allows index
suffices now capability least t =
    if valid now t
    then if allows now capability t then leb (index least) (index t.autonomy_level) else false
    else false

-- the loop of `is_authorized` over the ids of a grantee
unfoldable pub any_suffices : ℕ → String → AutonomyLevel → Dict RuntimeToken → List String → Bool
any_suffices now capability least tokens [] = false
any_suffices now capability least tokens (id ∷ ids) =
    let rest = any_suffices now capability least tokens ids in
    elim (lookup id tokens) [
      | none ↦ rest
      | some t ↦ if suffices now capability least t then true else rest
    ]

unfoldable pub is_authorized : ℕ → String → String → AutonomyLevel → Grants → Bool
is_authorized now did capability least s =
    any_suffices now capability least s.tokens (granted_ids did s)

-- the loop of `get_autonomy_level`, from the highest level so far
unfoldable pub highest_from : ℕ → Dict RuntimeToken → List String → AutonomyLevel → AutonomyLevel
highest_from now tokens [] highest = highest
highest_from now tokens (id ∷ ids) highest =
    let skipped = highest_from now tokens ids highest in
    elim (lookup id tokens) [
      | none ↦ skipped
      | some t ↦
          let raised = highest_from now tokens ids t.autonomy_level in
          if valid now t
          then if ltb (index highest) (index t.autonomy_level) then raised else skipped
          else skipped
    ]

unfoldable pub get_autonomy_level : ℕ → String → Grants → AutonomyLevel
get_autonomy_level now did s = highest_from now s.tokens (granted_ids did s) watch

-- the tokens of some ids that are there
unfoldable pub present : Dict RuntimeToken → List String → List RuntimeToken
present tokens [] = []
present tokens (id ∷ ids) = elim (lookup id tokens) [
  | none ↦ present tokens ids
  | some t ↦ t ∷ present tokens ids
]

-- An empty grantee asks for all tokens.
unfoldable pub list_tokens : Option String → Grants → List RuntimeToken
list_tokens none s = values s.tokens
list_tokens (some did) s =
    if nonempty did then present s.tokens (granted_ids did s) else values s.tokens

-- `list.remove`, which takes out the first occurrence
unfoldable pub remove_first : String → List String → List String
remove_first id [] = []
remove_first id (x ∷ xs) = if x == id then xs else x ∷ remove_first id xs

-- one turn of the loop of `cleanup_expired`
unfoldable pub drop_token : String → Grants → Grants
drop_token id s = elim (lookup id s.tokens) [
  | none ↦ s
  | some t ↦ record {
    tokens = erase id s.tokens;
    by_grantee = elim (lookup t.grantee s.by_grantee) [
      | none ↦ s.by_grantee
      | some ids ↦ insert t.grantee (remove_first id ids) s.by_grantee
    ];
  }
]

unfoldable pub drop_tokens : List String → Grants → Grants
drop_tokens [] s = s
drop_tokens (id ∷ ids) s = drop_tokens ids (drop_token id s)

abbrev pub invalid : ℕ → RuntimeToken → Bool
invalid now t = not (valid now t)

unfoldable pub cleanup_expired : ℕ → Grants → Grants × ℕ
cleanup_expired now s =
    let ids = keys_where (invalid now) s.tokens in (drop_tokens ids s, length ids)
