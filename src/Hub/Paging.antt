-- ===== src/Hub/Paging.antt =====
-- The pages of a listing.
use roar_protocol.Base.{
  ◌∙◌, ap, sym, ℕ, zero, suc, ◌+◌, ◌*◌, ◌≤◌, String, ◌≡◌, refl, Option, List, [], ◌∷◌, ◌++◌, arith,
  length, drop,
}
use native.Mathlib.Nat.{suc-mul}
use roar_protocol.Types.{DiscoveryEntry}
use roar_protocol.Hub.{Hub}
use roar_protocol.Hub.Listing.{pos, clamp_limit, take, listed, list_agents}

-- The agents of `n` pages in a row, from an offset on, with one limit.
unfoldable pub pages : Option String → ℕ → ℕ → ℕ → Hub → List DiscoveryEntry
pages capability limit zero offset hub = []
pages capability limit (suc n) offset hub =
    (list_agents capability (pos limit) (pos offset) hub).agents
    ++ pages capability limit n (offset + limit) hub

take-append-drop {ℓ} : {A : Type ℓ} → (n : ℕ) (xs : List A) → take n xs ++ drop n xs ≡ xs
unfolding take
take-append-drop zero xs = refl
take-append-drop (suc n) [] = refl
take-append-drop (suc n) (x ∷ xs) = rw (take-append-drop n xs)

drop_nil {ℓ} : {A : Type ℓ} → (n : ℕ) → drop {A = A} n [] ≡ []
drop_nil zero = refl
drop_nil (suc n) = refl

drop-drop {ℓ} : {A : Type ℓ} → (m n : ℕ) (xs : List A) → drop n (drop m xs) ≡ drop (m + n) xs
drop-drop zero n xs = ap (λ k. drop k xs) (omega arith)
drop-drop (suc m) n [] = drop_nil n ∙ sym (drop_nil (suc m + n))
drop-drop (suc m) n (x ∷ xs) =
    let e : suc (m + n) ≡ suc m + n = omega arith in drop-drop m n xs ∙ ap (λ k. drop k (x ∷ xs)) e

drop_all {ℓ} : {A : Type ℓ} → (n : ℕ) (xs : List A) → length xs ≤ n → drop n xs ≡ []
drop_all zero [] h = refl
drop_all zero (x ∷ xs) h = absurd (omega (arith, h))
drop_all (suc n) [] h = refl
drop_all (suc n) (x ∷ xs) h = drop_all n xs (omega (arith, h))

-- Pages of the greatest limit or less, read in a row until the total is reached, list every agent
-- once and in order: from the offset of the first on, all that the directory lists.
pub pages-listed :
    (capability : Option String) (limit n offset : ℕ) (hub : Hub)
    → 1 ≤ limit
    → limit ≤ 1000
    → (list_agents capability (pos limit) (pos offset) hub).total ≤ offset + n * limit
    → pages capability limit n offset hub ≡ drop offset (listed capability hub.directory)
unfolding pages list_agents
pages-listed capability limit zero offset hub l u h =
    let done : length (listed capability hub.directory) ≤ offset = omega (arith, h) in
    sym (drop_all offset (listed capability hub.directory) done)
pages-listed capability limit (suc n) offset hub l u h =
    let entries = listed capability hub.directory in
    let same : clamp_limit (pos limit) ≡ limit = omega arith in
    let step : suc n * limit ≡ n * limit + limit = suc-mul n limit in
    let more : length entries ≤ offset + limit + n * limit = omega (arith, h, step) in
    let rest = pages-listed capability limit n (offset + limit) hub l u more in
    rw (same, rest, ← drop-drop offset limit entries) (take-append-drop limit (drop offset entries))
