-- ===== src/Base/Dict.antt =====
-- A Python dict with texts as keys, in insertion order; `OrderedDict` is the same. A key is listed
-- once: `Distinct`, which `insert` keeps.
use Prim.Native.Nat.{ℕ, zero, suc, ◌+◌, ◌-◌, ◌≤◌}
use Prim.Native.String.{String}
use mathlib.Core.Path.{◌≡◌, refl}
use mathlib.Core.Logic.{inl, inr}
use mathlib.Core.Bool.{Bool, false}
use mathlib.Core.Option.{Option, none, some}
use mathlib.Core.List.{List, [], ◌∷◌, ◌++◌}
use native.Mathlib.Omega.{arith}
use roar_protocol.Base.Tests.{if◌then◌else◌, ltb, is_some, Bool-cases}
use roar_protocol.Base.Lists.{length, drop}
use roar_protocol.Base.Text.{◌==◌, elem}

abbrev pub Dict {ℓ} : Type ℓ → Type ℓ
Dict V = List (String × V)

module _ {ℓ} {V : Type ℓ} where
  -- `d.get(k)`
  abbrev pub lookup : String → Dict V → Option V
  lookup k [] = none
  lookup k ((j, v) ∷ d) = if k == j then some v else lookup k d

  -- `k in d`
  abbrev pub contains : String → Dict V → Bool
  contains k d = is_some (lookup k d)

  -- `d[k] = v`: an old key keeps its place
  abbrev pub insert : String → V → Dict V → Dict V
  insert k v [] = (k, v) ∷ []
  insert k v ((j, w) ∷ d) = if k == j then (j, v) ∷ d else (j, w) ∷ insert k v d

  -- `del d[k]`, `d.pop(k, None)`
  abbrev pub erase : String → Dict V → Dict V
  erase k [] = []
  erase k ((j, w) ∷ d) = if k == j then erase k d else (j, w) ∷ erase k d

  -- `for k in ks: del d[k]`
  abbrev pub erase_all : List String → Dict V → Dict V
  erase_all [] d = d
  erase_all (k ∷ ks) d = erase_all ks (erase k d)

  -- `[k for k, v in d.items() if p(v)]`
  abbrev pub keys_where : (V → Bool) → Dict V → List String
  keys_where p [] = []
  keys_where p ((k, v) ∷ d) = if p v then k ∷ keys_where p d else keys_where p d

  -- `d.values()`
  abbrev pub values : Dict V → List V
  values [] = []
  values ((k, v) ∷ d) = v ∷ values d

  -- `while len(d) > n: d.popitem(last=False)`
  abbrev pub drop_oldest : ℕ → Dict V → Dict V
  drop_oldest n [] = []
  drop_oldest n (e ∷ d) = if ltb n (length (e ∷ d)) then drop_oldest n d else e ∷ d

  -- No key is listed twice.
  abbrev pub Distinct : Dict V → Type ℓ
  Distinct [] = Unit
  Distinct ((k, v) ∷ d) = (lookup k d ≡ none) × Distinct d

module _ {ℓ} {V : Type ℓ} where
  pub lookup-insert :
      (j k : String) (v : V) (d : Dict V)
      → lookup j (insert k v d) ≡ (if j == k then some v else lookup j d)
  lookup-insert j k v [] = refl
  lookup-insert j k v ((i, w) ∷ d) = ground (arith, lookup-insert j k v d)

  pub lookup-insert_self : (k : String) (v : V) (d : Dict V) → lookup k (insert k v d) ≡ some v
  lookup-insert_self k v d = ground (arith, lookup-insert k k v d)

  pub lookup-erase :
      (j k : String) (d : Dict V) → lookup j (erase k d) ≡ (if j == k then none else lookup j d)
  lookup-erase j k [] = ground arith
  lookup-erase j k ((i, w) ∷ d) = ground (arith, lookup-erase j k d)

  pub lookup-erase_all :
      (j : String) (ks : List String) (d : Dict V)
      → lookup j (erase_all ks d) ≡ (if elem j ks then none else lookup j d)
  lookup-erase_all j [] d = refl
  lookup-erase_all j (k ∷ ks) d =
      ground (arith, lookup-erase_all j ks (erase k d), lookup-erase j k d)

  elem-keys_where_absent :
      (j : String) (p : V → Bool) (d : Dict V) → lookup j d ≡ none → elem j (keys_where p d) ≡ false
  elem-keys_where_absent j p [] h = refl
  elem-keys_where_absent j p ((i, w) ∷ d) h = ground (arith, elem-keys_where_absent j p d)

  pub elem-keys_where :
      (j : String) (p : V → Bool) (d : Dict V)
      → Distinct d
      → elem j (keys_where p d) ≡ elim (lookup j d) [ none ↦ false | some v ↦ p v ]
  elem-keys_where j p [] h = refl
  elem-keys_where j p ((i, w) ∷ d) h =
      ground (arith, elem-keys_where j p d h.1, elem-keys_where_absent i p d h.0)

  pub Distinct-insert : (k : String) (v : V) (d : Dict V) → Distinct d → Distinct (insert k v d)
  Distinct-insert k v [] h = (refl, tt)
  Distinct-insert k v ((i, w) ∷ d) h =
      ground (arith, Distinct-insert k v d h.1, lookup-insert i k v d)

  pub Distinct-erase : (k : String) (d : Dict V) → Distinct d → Distinct (erase k d)
  Distinct-erase k [] h = tt
  Distinct-erase k ((i, w) ∷ d) h = ground (arith, Distinct-erase k d h.1, lookup-erase i k d)

  pub Distinct-erase_all : (ks : List String) (d : Dict V) → Distinct d → Distinct (erase_all ks d)
  Distinct-erase_all [] d h = h
  Distinct-erase_all (k ∷ ks) d h = Distinct-erase_all ks (erase k d) (Distinct-erase k d h)

  pub length-erase-le : (k : String) (d : Dict V) → length (erase k d) ≤ length d
  length-erase-le k [] = omega arith
  length-erase-le k ((i, w) ∷ d) = ground (arith, length-erase-le k d)

  pub length-erase_all-le : (ks : List String) (d : Dict V) → length (erase_all ks d) ≤ length d
  length-erase_all-le [] d = omega arith
  length-erase_all-le (k ∷ ks) d =
      omega (arith, length-erase_all-le ks (erase k d), length-erase-le k d)

  pub length-insert :
      (k : String) (v : V) (d : Dict V)
      → length (insert k v d) ≡ (if contains k d then length d else length d + 1)
  length-insert k v [] = omega arith
  length-insert k v ((i, w) ∷ d) = ground (arith, length-insert k v d)

  pub erase_absent : (k : String) (d : Dict V) → lookup k d ≡ none → erase k d ≡ d
  erase_absent k [] h = refl
  erase_absent k ((i, w) ∷ d) h = ground (arith, erase_absent k d)

  pub insert_absent :
      (k : String) (v : V) (d : Dict V) → lookup k d ≡ none → insert k v d ≡ d ++ (k, v) ∷ []
  insert_absent k v [] h = refl
  insert_absent k v ((i, w) ∷ d) h = ground (arith, insert_absent k v d)

  pub length-drop_oldest-le : (n : ℕ) (d : Dict V) → length (drop_oldest n d) ≤ n
  length-drop_oldest-le n [] = omega arith
  length-drop_oldest-le n (e ∷ d) = ground (arith, length-drop_oldest-le n d)

  pub drop_oldest-eq-drop : (n : ℕ) (d : Dict V) → drop_oldest n d ≡ drop (length d - n) d
  drop_oldest-eq-drop n [] = ground arith
  drop_oldest-eq-drop n (e ∷ d) = elim (Bool-cases (ltb n (length (e ∷ d)))) [
    | inl more ↦
        let e1 : suc (length d) - n ≡ suc (length d - n) = ground arith in
        rw (more, e1) (drop_oldest-eq-drop n d)
    | inr done ↦ let e1 : suc (length d) - n ≡ 0 = ground arith in rw (done, e1)
  ]

  pub lookup-drop_absent :
      (j : String) (n : ℕ) (d : Dict V) → lookup j d ≡ none → lookup j (drop n d) ≡ none
  lookup-drop_absent j zero d h = h
  lookup-drop_absent j (suc n) [] h = h
  lookup-drop_absent j (suc n) ((i, w) ∷ d) h = ground (arith, lookup-drop_absent j n d)

  pub Distinct-drop : (n : ℕ) (d : Dict V) → Distinct d → Distinct (drop n d)
  Distinct-drop zero d h = h
  Distinct-drop (suc n) [] h = h
  Distinct-drop (suc n) (e ∷ d) h = Distinct-drop n d h.1

  pub Distinct-drop_oldest : (n : ℕ) (d : Dict V) → Distinct d → Distinct (drop_oldest n d)
  Distinct-drop_oldest n d h = rw (drop_oldest-eq-drop n d) (Distinct-drop (length d - n) d h)
