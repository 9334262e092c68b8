-- ===== src/Hub/Listing.antt =====
-- `list_agents` and `lookup_agent` of python/src/roar_sdk/hub.py.
use roar_protocol.Base.{
  ℕ, zero, suc, min, max, String, Option, none, some, List, [], ◌∷◌, if◌then◌else◌, length, drop,
  nonempty,
}
use roar_protocol.Types.{DiscoveryEntry}
use roar_protocol.Types.Directory.{Directory, find_entry, search, list_all}
use roar_protocol.Hub.{Hub}

-- The query parameters of `list_agents` are integers.
pub data ℤ : Type 0 where
  pos : ℕ → ℤ
  negsuc : ℕ → ℤ

-- `max(1, min(limit, 1000))` and `max(0, offset)`
abbrev pub clamp_limit : ℤ → ℕ
clamp_limit (pos n) = max 1 (min n 1000)
clamp_limit (negsuc n) = 1

abbrev pub clamp_offset : ℤ → ℕ
clamp_offset (pos n) = n
clamp_offset (negsuc n) = 0

unfoldable pub take {ℓ} : {A : Type ℓ} → ℕ → List A → List A
take zero xs = []
take (suc n) [] = []
take (suc n) (x ∷ xs) = x ∷ take n xs

pub record Page : Type 0 where
  pub agents : List DiscoveryEntry
  pub total : ℕ
  pub limit : ℕ
  pub offset : ℕ

abbrev pub listed : Option String → Directory → List DiscoveryEntry
listed none d = list_all d
listed (some capability) d = if nonempty capability then search capability d else list_all d

unfoldable pub list_agents : Option String → ℤ → ℤ → Hub → Page
list_agents capability limit offset hub =
    let entries = listed capability hub.directory in
    record {
      agents = take (clamp_limit limit) (drop (clamp_offset offset) entries);
      total = length entries;
      limit = clamp_limit limit;
      offset = clamp_offset offset;
    }

unfoldable pub lookup_agent : String → Hub → Option DiscoveryEntry
lookup_agent did hub = find_entry did hub.directory
