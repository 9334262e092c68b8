-- ===== src/Auth/Admission.antt =====
-- The requests that are let through.
use roar_protocol.Base.{
  Bool-cases, String, ◌≡◌, ◌⊎◌, refl, Bool, true, ◌||◌, Option, none, some, List, [], ◌∷◌, arith,
  nonempty, elem, Option-cases, inl, inr,
}
use roar_protocol.Auth.{
  AuthStrategy, AuthConfig, Request, api_key, jwt_bearer, challenge_response, no_auth, allowed,
  extract_api_key, extract_bearer, given, verify_api_key, require_auth, ends_with,
}

-- Why a request is let through.
pub data Passed (decode_jwt : String → String → Bool) (c : AuthConfig) (q : Request) : Type 0 where
  disabled : c.strategy ≡ no_auth → Passed decode_jwt c q
  development : c.allow_unauthenticated ≡ true → Passed decode_jwt c q
  by_key :
      (key : String)
      → c.strategy ≡ api_key
      → extract_api_key q ≡ some key
      → nonempty key ≡ true
      → elem key c.api_keys ≡ true
      → Passed decode_jwt c q
  by_token :
      (token : String)
      → c.strategy ≡ jwt_bearer
      → extract_bearer q.authorization ≡ some token
      → nonempty token ≡ true
      → decode_jwt token c.jwt_secret ≡ true
      → Passed decode_jwt c q
  registers :
      c.strategy ≡ challenge_response
      → ends_with "/register" q.path || ends_with "/challenge" q.path ≡ true
      → Passed decode_jwt c q

-- Where it does not raise, the comparison tells whether the key is in the list.
pub verify_api_key-elem :
    (key : String) (keys : List String) (b : Bool)
    → verify_api_key key keys ≡ some b
    → elem key keys ≡ b
unfolding verify_api_key
verify_api_key-elem key [] b h = ground arith
verify_api_key-elem key (valid ∷ keys) b h = elim (Option-cases (verify_api_key key keys)) [
  | inl bad ↦ absurd (ground arith)
  | inr (later, p) ↦ ground (arith, verify_api_key-elem key keys later p)
]

given-some :
    (o : Option String) (s : String) → given o ≡ some s → (o ≡ some s) × (nonempty s ≡ true)
given-some none s h = absurd (ground arith)
given-some (some t) s h = ground arith

AuthStrategy-cases :
    (s : AuthStrategy)
    → ((s ≡ no_auth) ⊎ (s ≡ api_key)) ⊎ ((s ≡ jwt_bearer) ⊎ (s ≡ challenge_response))
AuthStrategy-cases no_auth = inl (inl refl)
AuthStrategy-cases api_key = inl (inr refl)
AuthStrategy-cases jwt_bearer = inr (inl refl)
AuthStrategy-cases challenge_response = inr (inr refl)

-- A request is let through for one of five reasons only: authentication is off, requests without
-- it are allowed, its key is among the keys, its token decodes under the secret, or the strategy is
-- the challenge and the path is one of the challenge's own.
pub require_auth-allowed :
    (decode_jwt : String → String → Bool) (c : AuthConfig) (q : Request)
    → require_auth decode_jwt c q ≡ allowed
    → Passed decode_jwt c q
unfolding require_auth
require_auth-allowed decode_jwt c q h = elim (Bool-cases c.allow_unauthenticated) [
  | inl dev ↦ development dev
  | inr strict ↦ elim (AuthStrategy-cases c.strategy) [
    | inl (inl s) ↦ disabled s
    | inl (inr s) ↦ elim (Option-cases (given (extract_api_key q))) [
      | inl absent ↦ absurd (ground arith)
      | inr (key, g) ↦
          let (k, n) = given-some (extract_api_key q) key g in
          let good : verify_api_key key c.api_keys ≡ some true = ground arith in
          by_key key s k n (verify_api_key-elem key c.api_keys true good)
    ]
    | inr (inl s) ↦ elim (Option-cases (given (extract_bearer q.authorization))) [
      | inl absent ↦ absurd (ground arith)
      | inr (token, g) ↦
          let (k, n) = given-some (extract_bearer q.authorization) token g in
          by_token token s k n (ground arith)
    ]
    | inr (inr s) ↦ registers s (ground arith)
  ]
]
