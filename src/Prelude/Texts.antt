-- ===== src/Prelude/Texts.antt =====
-- Rust's `String`: its bytes, which `==`, the order and `starts_with` work on.
use Prim.Native.Nat.{ℕ}
use Prim.Native.Char.{code}
use Prim.Native.String.{String}
use mathlib.Core.Bool.{Bool, true, false}
use mathlib.Core.List.{List, [], ◌∷◌}
use taple_core.Prelude.Tests.{ltb, if◌then◌else◌}

abbrev pub Str : Type 0
Str = List ℕ

-- The bytes of an ASCII literal.
abbrev pub text : String → Str
text String.[] = []
text (String.◌∷◌ c s) = code c ∷ text s

-- `char::MAX`, U+10FFFF, in UTF-8.
abbrev pub char_max : Str
char_max = 0xF4 ∷ 0x8F ∷ 0xBF ∷ 0xBF ∷ []

-- The order of strings, which a `BTreeMap` keeps.
abbrev pub str_ltb : Str → Str → Bool
str_ltb xs [] = false
str_ltb [] (y ∷ ys) = true
str_ltb (x ∷ xs) (y ∷ ys) = if ltb x y then true else if ltb y x then false else str_ltb xs ys
