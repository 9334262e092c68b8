-- ===== src/Base/Text.antt =====
-- Texts are compared whole: a decision, the Boolean test `==` that it gives, and membership in a
-- list of texts.
use Prim.Native.String.{String, ◌++◌}
use Prim.Native.Char.{code}
use native.Mathlib.Omega.{arith}
use mathlib.Core.Option.{Option, none, some}
use text.Mathlib.TextLemmas.{nil-append, cons-append, append_assoc}
use roar_protocol.Base.Tests.{ltb, nat_eq, if◌then◌else◌}
use mathlib.Core.Path.{◌≡◌, refl}
use mathlib.Core.Logic.{◌↔◌}
use mathlib.Core.Bool.{Bool, true, false, ◌||◌, ◌&&◌}
use mathlib.Core.List.{List, [], ◌∷◌}
use text.Mathlib.Text.{◌==◌ as text_eq}
use text.Mathlib.TextEquality.{eq_iff}

pub not_of_test {ℓ} : {P : Type ℓ} → (false ≡ true) ↔ P → ¬ P
not_of_test e p = cc (e.1 p)

abbrev pub Dec-of_test {ℓ} : {P : Type ℓ} (b : Bool) → (b ≡ true) ↔ P → Dec P
Dec-of_test true e = yes (e.0 refl)
Dec-of_test false e = no (not_of_test e)

unfoldable pub str_dec : Discrete String
str_dec s t = Dec-of_test (text_eq s t) (eq_iff s t)

infix 50 ◌==◌
abbrev pub ◌==◌ : String → String → Bool
s == t = elim (str_dec s t) [ yes _ ↦ true | no _ ↦ false ]

-- `x in xs`
abbrev pub elem : String → List String → Bool
elem x [] = false
elem x (y ∷ ys) = x == y || elem x ys

-- `bool(s)` of a text
abbrev pub nonempty : String → Bool
nonempty String.[] = false
nonempty (String.◌∷◌ c s) = true

-- The rest of a text behind a prefix: `s.startswith(p)` and `s[len(p):]` in one.
abbrev pub strip_prefix : String → String → Option String
strip_prefix String.[] s = some s
strip_prefix (String.◌∷◌ c p) String.[] = none
strip_prefix (String.◌∷◌ c p) (String.◌∷◌ d s) =
    if nat_eq (code c) (code d) then strip_prefix p s else none

-- `s.split(":", 1)`, where `s` has a colon
abbrev pub split_colon : String → Option (String × String)
split_colon String.[] = none
split_colon (String.◌∷◌ c s) =
    if nat_eq (code c) b':'
    then some (String.[], s)
    else elim (split_colon s) [ none ↦ none | some (a, b) ↦ some (String.◌∷◌ c a, b) ]

pub strip_prefix-append : (p s : String) → strip_prefix p (p ++ s) ≡ some s
strip_prefix-append String.[] s = rw nil-append
strip_prefix-append (String.◌∷◌ c p) s = rw cons-append (ground (arith, strip_prefix-append p s))

-- every code point is below 128
abbrev pub is_ascii : String → Bool
is_ascii String.[] = true
is_ascii (String.◌∷◌ c s) = ltb (code c) 128 && is_ascii s

-- `hmac.compare_digest` on texts: it raises on one that is not ASCII
abbrev pub compare_digest : String → String → Option Bool
compare_digest a b = if is_ascii a && is_ascii b then some (a == b) else none

-- `a + b` of texts
abbrev pub append_text : String → String → String
append_text a b = a ++ b

pub nonempty-append : (p s : String) → nonempty p ≡ true → nonempty (append_text p s) ≡ true
nonempty-append String.[] s h = cc
nonempty-append (String.◌∷◌ c p) s h = rw cons-append

pub append_text_assoc :
    (a b c : String) → append_text (append_text a b) c ≡ append_text a (append_text b c)
append_text_assoc a b c = append_assoc a b c
