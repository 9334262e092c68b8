-- ===== src/TokenStore/Limits.antt =====
-- The limit on a token's uses, over the calls of all threads.
use roar_protocol.Base.{
  ℕ, ◌+◌, ◌≤◌, String, ◌≡◌, Option, some, List, [], ◌∷◌, arith, if◌then◌else◌, ◌==◌, All, str_dec,
}
use roar_protocol.Base.Dict.{Dict, lookup-insert}
use roar_protocol.TokenStore.{get_count, get_and_increment}

-- A call: the token, and the limit that it is made with.
pub record Call : Type 0 where
  pub token : String
  pub max_uses : Option ℕ

-- The counts after a sequence of calls, and how many of those for a token were granted.
unfoldable pub run : String → List Call → Dict ℕ → Dict ℕ × ℕ
run id [] counts = (counts, 0)
run id (c ∷ cs) counts =
    let (counts', ok) = get_and_increment c.token c.max_uses counts in
    let (counts'', n) = run id cs counts' in
    (counts'', if ok then if c.token == id then n + 1 else n else n)

-- A call counts its own token, exactly when it is granted, and no other.
pub get_count-get_and_increment :
    (id : String) (c : Call) (counts : Dict ℕ)
    → let (counts', ok) = get_and_increment c.token c.max_uses counts in
      get_count id counts'
      ≡ get_count id counts + (if ok then if c.token == id then 1 else 0 else 0)
unfolding get_and_increment
get_count-get_and_increment id c counts =
    ground (arith, lookup-insert id c.token (get_count c.token counts + 1) counts)

-- The count of a token is what it was and the calls for it that were granted since, whatever the
-- calls for other tokens in between.
pub run-counts :
    (id : String) (cs : List Call) (counts : Dict ℕ)
    → let (counts', n) = run id cs counts in get_count id counts' ≡ get_count id counts + n
unfolding run
run-counts id [] counts = omega arith
run-counts id (c ∷ cs) counts =
    let (counts', _) = get_and_increment c.token c.max_uses counts in
    ground (arith, get_count-get_and_increment id c counts, run-counts id cs counts')

-- The call is for another token, or carries the limit.
abbrev pub Limited : String → ℕ → Call → Type 0
Limited id limit c = c.token ≡ id → c.max_uses ≡ some limit

pub get_and_increment-Limited :
    (id : String) (limit : ℕ) (c : Call) (counts : Dict ℕ)
    → Limited id limit c
    → get_count id counts ≤ limit
    → get_count id (get_and_increment c.token c.max_uses counts).0 ≤ limit
unfolding get_and_increment
get_and_increment-Limited id limit c counts l h = elim (str_dec c.token id) [
  | yes e ↦ ground (arith, l e, lookup-insert id c.token (get_count c.token counts + 1) counts)
  | no n ↦ ground (arith, lookup-insert id c.token (get_count c.token counts + 1) counts)
]

-- However the calls of all threads interleave, a token whose calls all carry one limit is granted
-- at most as often as the limit leaves.
pub run-Limited :
    (id : String) (limit : ℕ) (cs : List Call) (counts : Dict ℕ)
    → All (Limited id limit) cs
    → get_count id counts ≤ limit
    → get_count id counts + (run id cs counts).1 ≤ limit
unfolding run
run-Limited id limit [] counts l h = omega arith
run-Limited id limit (c ∷ cs) counts l h =
    let (counts', _) = get_and_increment c.token c.max_uses counts in
    let kept = get_and_increment-Limited id limit c counts l.0 h in
    ground
      (arith, get_count-get_and_increment id c counts, run-Limited id limit cs counts' l.1 kept)
