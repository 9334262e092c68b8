-- ===== src/Stream/Channel.antt =====
-- What a subscription promises: a channel that keeps the newest events that its filter takes, in
-- the order in which they were published.
use roar_protocol.Base.{
  ◌==◌, String, ℕ, ◌+◌, Bool, Option, none, some, List, [], ◌∷◌, ◌++◌, if◌then◌else◌, zero, suc,
}
use roar_protocol.Stream.{StreamEvent, StreamFilter, matches, keep_last}

-- the newest events up to a limit, where 0 is no limit
abbrev pub newest : ℕ → List StreamEvent → List StreamEvent
newest zero q = q
newest (suc n) q = keep_last (suc n) q

abbrev pub sent : StreamFilter → ℕ → StreamEvent → List StreamEvent → List StreamEvent
sent f limit e q = if matches f e then newest limit (q ++ e ∷ []) else q

abbrev pub received : List StreamEvent → List StreamEvent × Option StreamEvent
received [] = ([], none)
received (e ∷ q) = (q, some e)

-- The calls on a bus.
pub data Op : Type 0 where
  publish_op : StreamEvent → Op
  get_op : String → Op
  subscribe_op : String → Option StreamFilter → Option ℕ → Bool → Op
  close_op : String → Op

-- The channel after the calls, and what its own subscriber got.
unfoldable pub channel :
    String
    → StreamFilter
    → ℕ
    → List Op
    → List StreamEvent
    → List StreamEvent × List (Option StreamEvent)
channel id f limit [] q = (q, [])
channel id f limit (publish_op e ∷ ops) q = channel id f limit ops (sent f limit e q)
channel id f limit (get_op j ∷ ops) q =
    let (q', out) = received q in
    let (mine, outs) = channel id f limit ops q' in
    let others = channel id f limit ops q in if j == id then (mine, out ∷ outs) else others
channel id f limit (subscribe_op j g n r ∷ ops) q = channel id f limit ops q
channel id f limit (close_op j ∷ ops) q = channel id f limit ops q

-- how many of the events that are published the filter takes
abbrev pub taken : StreamFilter → List Op → ℕ
taken f [] = 0
taken f (publish_op e ∷ ops) = (if matches f e then 1 else 0) + taken f ops
taken f (get_op j ∷ ops) = taken f ops
taken f (subscribe_op j g n r ∷ ops) = taken f ops
taken f (close_op j ∷ ops) = taken f ops
