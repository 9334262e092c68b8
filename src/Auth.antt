-- ===== src/Auth.antt =====
-- Authentication of requests: python/src/roar_sdk/auth_middleware.py. Of a request, what the code
-- reads: its path and two headers. `decode_jwt` is PyJWT's check of a token under a secret.
pub mod Admission
mod Tests
use Prim.Native.Char.{code}
use roar_protocol.Base.{
  ℕ, String, Bool, true, false, ◌||◌, ◌&&◌, not, Option, none, some, List, [], ◌∷◌, if◌then◌else◌,
  nonempty, strip_prefix, compare_digest, ltb, leb, nat_eq, ◌==◌,
}

pub data AuthStrategy : Type 0 where
  api_key jwt_bearer challenge_response no_auth : AuthStrategy

pub record AuthConfig : Type 0 where
  pub strategy : AuthStrategy
  pub api_keys : List String
  pub jwt_secret : String
  pub allow_unauthenticated : Bool

pub record Request : Type 0 where
  pub path : String
  pub authorization : Option String
  pub x_api_key : Option String

-- `str.isspace` of a code point
abbrev pub is_space : ℕ → Bool
is_space c =
    (leb 9 c && leb c 13)
    || (leb 28 c && leb c 32)
    || nat_eq c 0x85
    || nat_eq c 0xa0
    || nat_eq c 0x1680
    || (leb 0x2000 c && leb c 0x200a)
    || nat_eq c 0x2028
    || nat_eq c 0x2029
    || nat_eq c 0x202f
    || nat_eq c 0x205f
    || nat_eq c 0x3000

-- `str.strip`
unfoldable pub strip_start : String → String
strip_start String.[] = String.[]
strip_start (String.◌∷◌ c s) = if is_space (code c) then strip_start s else String.◌∷◌ c s

unfoldable pub strip_end : String → String
strip_end String.[] = String.[]
strip_end (String.◌∷◌ c s) =
    let rest = strip_end s in
    if is_space (code c) && not (nonempty rest) then String.[] else String.◌∷◌ c rest

abbrev pub strip : String → String
strip s = strip_end (strip_start s)

-- `s.endswith(p)`
unfoldable pub ends_with : String → String → Bool
ends_with p String.[] = p == ""
ends_with p (String.◌∷◌ c s) = p == String.◌∷◌ c s || ends_with p s

unfoldable pub extract_bearer : Option String → Option String
extract_bearer none = none
extract_bearer (some header) = elim (strip_prefix "Bearer " header) [
  | none ↦ none
  | some token ↦ some (strip token)
]

unfoldable pub extract_api_key : Request → Option String
unfolding extract_bearer
extract_api_key q = elim (extract_bearer q.authorization) [ none ↦ q.x_api_key | some k ↦ some k ]

-- The comparison with every key; none where one of them raises.
unfoldable pub verify_api_key : String → List String → Option Bool
verify_api_key key [] = some false
verify_api_key key (valid ∷ keys) = elim (compare_digest key valid) [
  | none ↦ none
  | some here ↦ elim (verify_api_key key keys) [ none ↦ none | some later ↦ some (here || later) ]
]

-- `failed` is an exception that is not caught.
pub data Decision : Type 0 where
  allowed unauthorized failed : Decision

-- what is left when the credentials are no good
abbrev pub fallback : AuthConfig → Decision
fallback c = if c.allow_unauthenticated then allowed else unauthorized

-- a token that is there and not empty
abbrev pub given : Option String → Option String
given none = none
given (some s) = if nonempty s then some s else none

unfoldable pub require_auth : (String → String → Bool) → AuthConfig → Request → Decision
require_auth decode_jwt c q = elim c.strategy [
  | no_auth ↦ allowed
  | api_key ↦ elim (given (extract_api_key q)) [
    | none ↦ fallback c
    | some key ↦ elim (verify_api_key key c.api_keys) [
      | none ↦ failed
      | some good ↦ if good then allowed else fallback c
    ]
  ]
  | jwt_bearer ↦ elim (given (extract_bearer q.authorization)) [
    | none ↦ fallback c
    | some token ↦ if decode_jwt token c.jwt_secret then allowed else fallback c
  ]
  | challenge_response ↦
      if ends_with "/register" q.path || ends_with "/challenge" q.path then allowed else fallback c
]
