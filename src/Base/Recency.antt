-- ===== src/Base/Recency.antt =====
-- An `OrderedDict` as a recency list: `move_to_end`, and what eviction from the front keeps.
use Prim.Native.Nat.{ℕ, ◌<◌, ◌≤◌, ◌+◌}
use Prim.Native.String.{String}
use mathlib.Core.Path.{◌≡◌, refl}
use mathlib.Core.Option.{none, some}
use mathlib.Core.List.{[], ◌∷◌, ◌++◌}
use native.Mathlib.Omega.{arith}
use roar_protocol.Base.Tests.{if◌then◌else◌}
use roar_protocol.Base.Lists.{length, length-append}
use roar_protocol.Base.Text.{◌==◌}
use roar_protocol.Base.Dict.{
  Dict, lookup, insert, erase, drop_oldest, Distinct, lookup-insert_self, lookup-erase,
  length-erase-le, Distinct-erase,
}

module _ {ℓ} {V : Type ℓ} where
  -- `d.move_to_end(k)`, for a key that is there
  abbrev pub move_to_end : String → Dict V → Dict V
  move_to_end k d = elim (lookup k d) [ none ↦ d | some v ↦ erase k d ++ (k, v) ∷ [] ]

  pub erase-insert : (k : String) (v : V) (d : Dict V) → erase k (insert k v d) ≡ erase k d
  erase-insert k v [] = ground arith
  erase-insert k v ((i, w) ∷ d) = ground (arith, erase-insert k v d)

  pub move_to_end-insert :
      (k : String) (v : V) (d : Dict V) → move_to_end k (insert k v d) ≡ erase k d ++ (k, v) ∷ []
  move_to_end-insert k v d = ground (arith, lookup-insert_self k v d, erase-insert k v d)

  pub lookup-append :
      (j k : String) (v : V) (d : Dict V)
      → lookup j (d ++ (k, v) ∷ [])
        ≡ elim (lookup j d) [ none ↦ if j == k then some v else none | some w ↦ some w ]
  lookup-append j k v [] = refl
  lookup-append j k v ((i, w) ∷ d) = ground (arith, lookup-append j k v d)

  pub lookup-refresh :
      (j k : String) (v : V) (d : Dict V)
      → lookup j (erase k d ++ (k, v) ∷ []) ≡ (if j == k then some v else lookup j d)
  lookup-refresh j k v d = ground (arith, lookup-append j k v (erase k d), lookup-erase j k d)

  Distinct-append :
      (k : String) (v : V) (d : Dict V)
      → Distinct d
      → lookup k d ≡ none
      → Distinct (d ++ (k, v) ∷ [])
  Distinct-append k v [] dd h = (refl, tt)
  Distinct-append k v ((i, w) ∷ d) dd h =
      ground (arith, Distinct-append k v d dd.1, lookup-append i k v d)

  pub Distinct-refresh :
      (k : String) (v : V) (d : Dict V) → Distinct d → Distinct (erase k d ++ (k, v) ∷ [])
  Distinct-refresh k v d dd =
      Distinct-append k v (erase k d) (Distinct-erase k d dd) (ground (arith, lookup-erase k k d))

  pub lookup-drop_oldest_last :
      (n : ℕ) (k : String) (v : V) (d : Dict V)
      → 0 < n
      → lookup k d ≡ none
      → lookup k (drop_oldest n (d ++ (k, v) ∷ [])) ≡ some v
  lookup-drop_oldest_last n k v [] l h = ground arith
  lookup-drop_oldest_last n k v ((i, w) ∷ d) l h =
      ground (arith, lookup-drop_oldest_last n k v d l, lookup-append k k v d)

  pub lookup-drop_oldest_absent :
      (n : ℕ) (k : String) (d : Dict V) → lookup k d ≡ none → lookup k (drop_oldest n d) ≡ none
  lookup-drop_oldest_absent n k [] h = h
  lookup-drop_oldest_absent n k ((i, w) ∷ d) h = ground (arith, lookup-drop_oldest_absent n k d)

  -- What is found after an eviction was there before.
  pub lookup-drop_oldest-some :
      (n : ℕ) (k : String) (v : V) (d : Dict V)
      → Distinct d
      → lookup k (drop_oldest n d) ≡ some v
      → lookup k d ≡ some v
  lookup-drop_oldest-some n k v [] dd h = h
  lookup-drop_oldest-some n k v ((i, w) ∷ d) dd h =
      ground (arith, lookup-drop_oldest-some n k v d dd.1, lookup-drop_oldest_absent n i d dd.0)

  length-erase_found-le :
      (k : String) (w : V) (d : Dict V) → lookup k d ≡ some w → length (erase k d) + 1 ≤ length d
  length-erase_found-le k w [] h = cc
  length-erase_found-le k w ((i, u) ∷ d) h =
      ground (arith, length-erase_found-le k w d, length-erase-le k d)

  pub length-refresh-le :
      (k : String) (v w : V) (d : Dict V)
      → lookup k d ≡ some w
      → length (erase k d ++ (k, v) ∷ []) ≤ length d
  length-refresh-le k v w d h =
      omega (arith, length-append {ℓ} (erase k d) ((k, v) ∷ []), length-erase_found-le k w d h)
