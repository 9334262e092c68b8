-- ===== src/Dedup/Window.antt =====
-- How long the replay guard remembers a key.
use roar_protocol.Base.{
  true, false, ℕ, ◌+◌, ◌≤◌, ◌<◌, String, ◌≡◌, refl, List, [], ◌∷◌, arith, length, All, str_dec, ◌∙◌,
  sym,
}
use roar_protocol.Dedup.{Guard, evict_expired, mark_seen, check_key, is_duplicate, clear}
use roar_protocol.Dedup.Held.{
  Holds, Holds-drop_expired, Holds-check_key, Holds-mark_seen, Holds-mark_seen_same, Holds-accepted,
}
use roar_protocol.Dedup.Bounds.{is_duplicate_iff, IsValid, is_duplicate-IsValid, mark_seen-IsValid}

-- One call of `is_duplicate`: when it evicts, when it reads the clock again, and its key.
pub record Call : Type 0 where
  pub evicted_at : ℕ
  pub now : ℕ
  pub key : String

-- A call that changes the guard: of `is_duplicate`, of `mark_seen` at a time, or of `clear`.
pub data Op : Type 0 where
  asks : Call → Op
  marks : ℕ → String → Op
  clears : Op

abbrev pub serve : Op → Guard → Guard
serve (asks c) g = (is_duplicate c.evicted_at c.now c.key g).0
serve (marks now key) g = mark_seen now key g
serve clears g = clear g

-- The guard after a sequence of calls.
unfoldable pub run : List Op → Guard → Guard
run [] g = g
run (op ∷ ops) g = run ops (serve op g)

max_keys-is_duplicate :
    (a b : ℕ) (k : String) (g : Guard) → (is_duplicate a b k g).0.max_keys ≡ g.max_keys
unfolding is_duplicate check_key mark_seen evict_expired
max_keys-is_duplicate a b k g = ground arith

ttl-is_duplicate : (a b : ℕ) (k : String) (g : Guard) → (is_duplicate a b k g).0.ttl ≡ g.ttl
unfolding is_duplicate check_key mark_seen evict_expired
ttl-is_duplicate a b k g = ground arith

Holds-is_duplicate :
    (k : String) (ts n : ℕ) (c : Call) (g : Guard)
    → n + 1 < g.max_keys
    → c.evicted_at ≤ c.now
    → c.now < ts + g.ttl
    → Holds k ts n g.seen
    → Holds k ts (n + 1) (is_duplicate c.evicted_at c.now c.key g).0.seen
unfolding is_duplicate evict_expired
Holds-is_duplicate k ts n c g l order live h =
    Holds-check_key k c.key ts n c.now (evict_expired c.evicted_at g) l live
      (Holds-drop_expired k ts n c.evicted_at g.ttl g.seen (omega arith) h)

-- The clock does not run backwards inside a call, and the call is made before `until`.
abbrev pub Before : ℕ → Call → Type 0
Before until c = (c.evicted_at ≤ c.now) × (c.now < until)

-- What the calls in between may be: checks before `until`, whose clock does not run backwards, and
-- marks not before `from`; no call of `clear`.
abbrev pub Keeps : ℕ → ℕ → Op → Type 0
Keeps from until (asks c) = Before until c
Keeps from until (marks now key) = from ≤ now
Keeps from until clears = ⊥

max_keys-serve : (op : Op) (g : Guard) → (serve op g).max_keys ≡ g.max_keys
unfolding mark_seen clear
max_keys-serve (asks c) g = max_keys-is_duplicate c.evicted_at c.now c.key g
max_keys-serve (marks now key) g = refl
max_keys-serve clears g = refl

ttl-serve : (op : Op) (g : Guard) → (serve op g).ttl ≡ g.ttl
unfolding mark_seen clear
ttl-serve (asks c) g = ttl-is_duplicate c.evicted_at c.now c.key g
ttl-serve (marks now key) g = refl
ttl-serve clears g = refl

-- One call keeps the key, with its time or a later one.
Holds-serve :
    (k : String) (from ts n : ℕ) (op : Op) (g : Guard)
    → n + 1 < g.max_keys
    → from ≤ ts
    → Keeps from (from + g.ttl) op
    → Holds k ts n g.seen
    → (ts' : ℕ) × (from ≤ ts') × Holds k ts' (n + 1) (serve op g).seen
Holds-serve k from ts n (asks c) g l old b h =
    (ts, old, Holds-is_duplicate k ts n c g l b.0 (omega (arith, b.1)) h)
Holds-serve k from ts n (marks now j) g l old b h = elim (str_dec k j) [
  | yes e ↦
      let same : Holds k now n (mark_seen now j g).seen =
        rw (sym e) (Holds-mark_seen_same k ts n now g (omega arith) h) in
      (now, b, record { found = same.found; newer = omega (arith, same.newer) })
  | no ne ↦ (ts, old, Holds-mark_seen k j ts n now g ne l h)
]
Holds-serve k from ts n clears g l old b h = absurd b

Holds-run :
    (k : String) (from ts n : ℕ) (ops : List Op) (g : Guard)
    → n + length ops < g.max_keys
    → from ≤ ts
    → All (Keeps from (from + g.ttl)) ops
    → Holds k ts n g.seen
    → (ts' : ℕ) × (from ≤ ts') × Holds k ts' (n + length ops) (run ops g).seen
unfolding run
Holds-run k from ts n [] g l old b h = (ts, old, ground (arith, h.found, h.newer))
Holds-run k from ts n (op ∷ ops) g l old b h =
    let same = max_keys-serve op g in
    let ttl = ttl-serve op g in
    let (ts1, old1, h1) = Holds-serve k from ts n op g (omega arith) old b.0 h in
    let (ts', old', rest) =
      Holds-run k from ts1 (n + 1) ops (serve op g) (omega (arith, same)) old1 (rw ttl b.1) h1 in
    (ts', old', record { found = rest.found; newer = omega (arith, rest.newer) })

serve-IsValid : (op : Op) (g : Guard) → IsValid g → IsValid (serve op g)
unfolding clear
serve-IsValid (asks c) g v = is_duplicate-IsValid c.evicted_at c.now c.key g v
serve-IsValid (marks now key) g v = mark_seen-IsValid now key g v
serve-IsValid clears g v = record { distinct = tt; bounded = omega arith }

run-IsValid : (ops : List Op) (g : Guard) → IsValid g → IsValid (run ops g)
unfolding run
run-IsValid [] g v = v
run-IsValid (op ∷ ops) g v = run-IsValid ops (serve op g) (serve-IsValid op g v)

ttl-run : (ops : List Op) (g : Guard) → (run ops g).ttl ≡ g.ttl
unfolding run
ttl-run [] g = refl
ttl-run (op ∷ ops) g = ttl-run ops (serve op g) ∙ ttl-serve op g

-- A key that a valid guard has accepted at the time `now` is reported as a duplicate at every later
-- check before `now + ttl`, whatever calls of `is_duplicate` and `mark_seen` come in between, if none
-- of `clear` does, as long as these calls number fewer than `max_keys`, the clock does not run
-- backwards inside a check, the checks are made before `now + ttl`, and no mark is before `now`.
pub is_duplicate-run :
    (a now : ℕ) (k : String) (g : Guard) (ops : List Op) (a' now' : ℕ)
    → IsValid g
    → length ops < g.max_keys
    → (is_duplicate a now k g).1 ≡ false
    → All (Keeps now (now + g.ttl)) ops
    → a' ≤ now'
    → now' < now + g.ttl
    → (is_duplicate a' now' k (run ops (is_duplicate a now k g).0)).1 ≡ true
is_duplicate-run a now k g ops a' now' v l fresh b order live =
    let g' = (is_duplicate a now k g).0 in
    let same = max_keys-is_duplicate a now k g in
    let ttl = ttl-is_duplicate a now k g in
    let (ts, old, held) =
      Holds-run k now now 0 ops g' (omega (arith, same)) (omega arith) (rw ttl b)
        (Holds-accepted a now k g (omega arith) fresh) in
    let ttl' = ttl-run ops g' in
    let valid = run-IsValid ops g' (is_duplicate-IsValid a now k g v) in
    (is_duplicate_iff a' now' k (run ops g') valid order).1
      (ts, held.found, omega (arith, ttl, ttl'))
