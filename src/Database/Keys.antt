-- ===== src/Database/Keys.antt =====
-- database/layers/utils.rs: the key of an entry, from its elements.
use taple_core.Prelude.{
  ℕ, zero, suc, ◌+◌, ◌/◌, ◌%◌, List, [], ◌∷◌, ◌++◌, Str, char_max, ltb, nat_eq, list_eq,
  if◌then◌else◌, Result, ok, err,
}
use taple_core.Models.Errors.{DbError, key_elements_error}

pub data Element : Type 0 where
  n : ℕ → Element
  s : Str → Element

abbrev hex_digit : ℕ → ℕ
hex_digit d = if ltb d 10 then b'0' + d else 87 + d

-- The last `width` hexadecimal digits of a number, in front of `rest`.
abbrev hex_digits : ℕ → ℕ → Str → Str
hex_digits zero v rest = rest
hex_digits (suc width) v rest = hex_digits width (v / 16) (hex_digit (v % 16) ∷ rest)

-- `get_u64_as_hexadecimal`: 16 digits, and the space that pads a text to the width of 17.
unfoldable pub get_u64_as_hexadecimal : ℕ → Str
get_u64_as_hexadecimal v = hex_digits 16 v (b' ' ∷ [])

-- The text of an element.
unfoldable pub element_text : Element → Str
element_text (n v) = get_u64_as_hexadecimal v
element_text (s t) = t

-- The loop of `get_key`: the elements with `char::MAX` between them.
unfoldable pub join : Element → List Element → Str
unfolding element_text
join e [] = element_text e
join e (f ∷ elements) = element_text e ++ char_max ++ join f elements

-- `get_key`
unfoldable pub get_key : List Element → Result Str DbError
unfolding join
get_key [] = err key_elements_error
get_key (e ∷ elements) = ok (join e elements)
