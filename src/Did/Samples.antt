-- ===== src/Did/Samples.antt =====
-- A network on which one key is known, for the tests.
use roar_protocol.Base.{ℕ, some, none, false, List, [], ◌∷◌}
use roar_protocol.Did.{Network}

abbrev pub raw : List ℕ
raw =
    1 ∷ 2 ∷ 3 ∷ 4 ∷ 5 ∷ 6 ∷ 7 ∷ 8 ∷ 9 ∷ 10 ∷ 11 ∷ 12 ∷ 13 ∷ 14 ∷ 15 ∷ 16 ∷ 1 ∷ 2 ∷ 3 ∷ 4 ∷ 5 ∷ 6 ∷ 7
    ∷ 8 ∷ 9 ∷ 10 ∷ 11 ∷ 12 ∷ 13 ∷ 14 ∷ 15 ∷ 16 ∷ []

abbrev pub network : Network
network = record {
  b58encode = λ _. "6Mk";
  b58decode = λ _. some (0xed ∷ 0x01 ∷ raw);
  b64decode = λ _. none;
  fromhex = λ _. some raw;
  hostname = λ _. none;
  is_private_ip = λ _. false;
  fetch = λ _. none;
}
