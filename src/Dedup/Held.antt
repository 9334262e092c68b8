-- ===== src/Dedup/Held.antt =====
-- The keys that the replay guard holds, and how many are newer than a key.
use roar_protocol.Base.{
  false, none, ℕ, ◌+◌, ◌≤◌, ◌<◌, String, ◌≡◌, some, [], ◌∷◌, arith, if◌then◌else◌, length, ◌==◌,
  ◌≢◌, str_dec,
}
use roar_protocol.Base.Dict.{
  Dict, lookup, insert, erase, drop_oldest, length-erase-le, length-insert, lookup-erase,
}
use roar_protocol.Dedup.{Guard, drop_expired, evict_expired, mark_seen, check_key, is_duplicate}

-- How many keys stand behind a key, in insertion order.
abbrev pub rank : String → Dict ℕ → ℕ
rank k [] = 0
rank k ((j, w) ∷ d) = if k == j then length d else rank k d

-- The guard holds the key with this time, and at most `n` keys are newer.
pub record Holds (k : String) (ts n : ℕ) (d : Dict ℕ) : Type 0 where
  pub found : lookup k d ≡ some ts
  pub newer : rank k d ≤ n

pub Holds-drop_expired :
    (k : String) (ts n now ttl : ℕ) (d : Dict ℕ)
    → now < ts + ttl
    → Holds k ts n d
    → Holds k ts n (drop_expired now ttl d)
unfolding drop_expired
Holds-drop_expired k ts n now ttl [] l h = h
Holds-drop_expired k ts n now ttl ((j, w) ∷ d) l h =
    ground (arith, Holds-drop_expired k ts n now ttl d l)

pub Holds-erase :
    (k j : String) (ts n : ℕ) (d : Dict ℕ) → k ≢ j → Holds k ts n d → Holds k ts n (erase j d)
Holds-erase k j ts n [] ne h = h
Holds-erase k j ts n ((i, w) ∷ d) ne h =
    ground (arith, Holds-erase k j ts n d ne, length-erase-le j d)

pub Holds-insert :
    (k j : String) (ts n now : ℕ) (d : Dict ℕ)
    → k ≢ j
    → Holds k ts n d
    → Holds k ts (n + 1) (insert j now d)
Holds-insert k j ts n now [] ne h = ground arith
Holds-insert k j ts n now ((i, w) ∷ d) ne h =
    ground (arith, Holds-insert k j ts n now d ne, length-insert j now d)

pub Holds-drop_oldest :
    (k : String) (ts n m : ℕ) (d : Dict ℕ) → n < m → Holds k ts n d → Holds k ts n (drop_oldest m d)
Holds-drop_oldest k ts n m [] l h = h
Holds-drop_oldest k ts n m ((j, w) ∷ d) l h = ground (arith, Holds-drop_oldest k ts n m d l)

pub Holds-mark_seen :
    (k j : String) (ts n now : ℕ) (g : Guard)
    → k ≢ j
    → n + 1 < g.max_keys
    → Holds k ts n g.seen
    → Holds k ts (n + 1) (mark_seen now j g).seen
unfolding mark_seen
Holds-mark_seen k j ts n now g ne l h =
    Holds-drop_oldest k ts (n + 1) g.max_keys (insert j now g.seen) l
      (Holds-insert k j ts n now g.seen ne h)

pub Holds-insert_same :
    (k : String) (ts n now : ℕ) (d : Dict ℕ) → Holds k ts n d → Holds k now n (insert k now d)
Holds-insert_same k ts n now [] h = absurd (ground (arith, h.found))
Holds-insert_same k ts n now ((i, w) ∷ d) h =
    ground (arith, h.found, h.newer, length-insert k now d, Holds-insert_same k ts n now d)

pub Holds-mark_seen_same :
    (k : String) (ts n now : ℕ) (g : Guard)
    → n < g.max_keys
    → Holds k ts n g.seen
    → Holds k now n (mark_seen now k g).seen
unfolding mark_seen
Holds-mark_seen_same k ts n now g l h =
    Holds-drop_oldest k now n g.max_keys (insert k now g.seen) l
      (Holds-insert_same k ts n now g.seen h)

pub Holds-check_key :
    (k j : String) (ts n now : ℕ) (g : Guard)
    → n + 1 < g.max_keys
    → now < ts + g.ttl
    → Holds k ts n g.seen
    → Holds k ts (n + 1) (check_key now j g).0.seen
unfolding check_key
Holds-check_key k j ts n now g l live h = elim (str_dec k j) [
  | yes e ↦ ground (arith, h.found, h.newer)
  | no ne ↦ ground (
    arith,
    Holds-mark_seen k j ts n now g ne l h,
    Holds-mark_seen k j ts n now (record g { seen = erase j g.seen }) ne l
        (Holds-erase k j ts n g.seen ne h),
  )
]

pub Holds-insert_new :
    (k : String) (now : ℕ) (d : Dict ℕ) → lookup k d ≡ none → Holds k now 0 (insert k now d)
Holds-insert_new k now [] h = ground arith
Holds-insert_new k now ((i, w) ∷ d) h = ground (arith, Holds-insert_new k now d)

pub Holds-mark_seen_new :
    (k : String) (now : ℕ) (g : Guard)
    → 0 < g.max_keys
    → lookup k g.seen ≡ none
    → Holds k now 0 (mark_seen now k g).seen
unfolding mark_seen
Holds-mark_seen_new k now g l h =
    Holds-drop_oldest k now 0 g.max_keys (insert k now g.seen) l (Holds-insert_new k now g.seen h)

pub Holds-accepted :
    (a now : ℕ) (k : String) (g : Guard)
    → 0 < g.max_keys
    → (is_duplicate a now k g).1 ≡ false
    → Holds k now 0 (is_duplicate a now k g).0.seen
unfolding is_duplicate check_key evict_expired
Holds-accepted a now k g l fresh =
    let kept = drop_expired a g.ttl g.seen in
    ground (
      arith,
      Holds-mark_seen_new k now (record g { seen = kept }) l,
      Holds-mark_seen_new k now (record g { seen = erase k kept }) l,
      lookup-erase k k kept,
    )
