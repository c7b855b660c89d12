-- ===== src/Models/Values.antt =====
-- value_wrapper.rs: a JSON value, with the cases that its serializer tells apart. An object keeps
-- its entries in the order of the map. Numbers are kept as the serializer reads them: the bits of
-- a float, a signed or an unsigned 64-bit pattern.
use taple_core.Prelude.{ℕ, Bool, Option, List, Str}

pub data Number : Type 0 where
  f64 i64 u64 : ℕ → Number

mutual
  pub data Value : Type 0 where
    null : Value
    bool : Bool → Value
    number : Number → Value
    string : Str → Value
    array : Values → Value
    object : Entries → Value

  pub data Values : Type 0 where
    nil : Values
    cons : Value → Values → Values

  pub data Entries : Type 0 where
    end : Entries
    entry : Str → Value → Entries → Entries

-- The functions of the serde_json and json_patch crates that the models call: `Value::get`, `[_]`,
-- `as_str`, `as_array`, `from_value::<Patch>`, and `patch`, which leaves a value as it was where it
-- fails.
pub record Json (Patch : Type 0) : Type 0 where
  pub get : Value → Str → Option Value
  pub index : Value → Str → Value
  pub as_str : Value → Option Str
  pub as_array : Value → Option (List Value)
  pub patch_of : Value → Option Patch
  pub patch : Value → Patch → Option Value
