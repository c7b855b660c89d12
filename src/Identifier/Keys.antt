-- ===== src/Identifier/Keys.antt =====
-- key_identifier.rs, and `Derivable::to_str` of mod.rs at a key.
use taple_core.Prelude.{
  ◌-◌, ◌≡◌, ◌↔◌, Bool, true, ◌&&◌, [], ◌++◌, arith, Str, Eq, nat_eq, list_eq, ◌==◌, eq_iff, eqb,
  is_empty, length, take, drop, if◌then◌else◌, Result, ok, err, ok_or, ◌>>=◌,
}
use taple_core.Identifier.Derivators.{
  Bytes, IdError, semantic_error, base64_decoding_error, Base64, KeyDerivator, key_derivator_eq,
  key_code, key_code_len, key_material_len, key_derivator_of,
}

pub record KeyIdentifier : Type 0 where
  pub public_key : Bytes
  pub derivator : KeyDerivator

-- `PartialEq for KeyIdentifier`
unfoldable pub key_identifier_beq : KeyIdentifier → KeyIdentifier → Bool
key_identifier_beq a b = a.public_key == b.public_key && a.derivator == b.derivator

pub key_identifier_beq_iff : (a b : KeyIdentifier) → (key_identifier_beq a b ≡ true) ↔ (a ≡ b)
unfolding key_identifier_beq
key_identifier_beq_iff a b = (
  λ h. ground (arith, eq_iff a.derivator b.derivator, eq_iff a.public_key b.public_key),
  λ h. ground (arith, eq_iff a.derivator b.derivator, eq_iff a.public_key b.public_key),
)

instance abbrev pub key_identifier_eq : Eq KeyIdentifier
key_identifier_eq = record { test = key_identifier_beq; test_iff = key_identifier_beq_iff }

module _ (base64 : Base64) where
  -- `Derivable::to_str`
  unfoldable pub to_str : KeyIdentifier → Str
  unfolding key_code
  to_str id =
      if is_empty id.public_key then [] else key_code id.derivator ++ base64.encode id.public_key

  -- `KeyIdentifier::from_str`
  unfoldable pub from_str : Str → Result KeyIdentifier IdError
  unfolding key_derivator_of key_material_len key_code_len
  from_str s = do
    code ← key_derivator_of s
    if eqb (length s) (key_material_len code)
        then (do
          let n = key_code_len code
          bytes ←
              ok_or (base64.decode (take (key_material_len code - n) (drop n s)))
                base64_decoding_error
          ok (record { public_key = bytes; derivator = code }))
        else err semantic_error
