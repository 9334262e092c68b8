-- ===== src/Json.antt =====
-- The values that `Dict[str, Any]` holds and that JSON carries. Numbers are natural, a time in whole
-- seconds or a count, or NaN, which Python's JSON parser reads and for which every comparison is
-- False. The two infinities fail the tests of a time as a far past or a far future does.
use roar_protocol.Base.{ℕ, String, Bool, true, false, Option, none, some, List, [], ◌∷◌}
use roar_protocol.Base.Dict.{Dict}

mutual
  pub data Json : Type 0 where
    null : Json
    bool : Bool → Json
    num : ℕ → Json
    nan : Json
    str : String → Json
    arr : Items → Json
    obj : Fields → Json

  pub data Items : Type 0 where
    nil : Items
    cons : Json → Items → Items

  pub data Fields : Type 0 where
    end : Fields
    field : String → Json → Fields → Fields

-- A dict as a JSON object, and a list of texts as a JSON array.
abbrev pub of_dict : Dict Json → Fields
of_dict [] = end
of_dict ((k, v) ∷ d) = field k v (of_dict d)

abbrev pub of_texts : List String → Items
of_texts [] = nil
of_texts (s ∷ ss) = cons (str s) (of_texts ss)

-- A Python number.
pub data Number : Type 0 where
  finite : ℕ → Number
  not_a_number : Number

-- `isinstance(v, (int, float))`, with the number: Python's `True` and `False` are numbers.
abbrev pub number? : Json → Option Number
number? (num n) = some (finite n)
number? nan = some not_a_number
number? (bool true) = some (finite 1)
number? (bool false) = some (finite 0)
number? _ = none
