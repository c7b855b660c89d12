-- ===== src/Identifier/Digests.antt =====
-- digest_identifier.rs, and `Derivable::to_str` of mod.rs at a digest.
use taple_core.Prelude.{
  ◌-◌, ◌≡◌, ◌↔◌, Bool, true, ◌&&◌, [], ◌++◌, arith, Str, Eq, nat_eq, list_eq, ◌==◌, eq_iff, eqb,
  is_empty, length, take, drop, if◌then◌else◌, Result, ok, err, ok_or, ◌>>=◌,
}
use taple_core.Identifier.Derivators.{
  Bytes, IdError, semantic_error, base64_decoding_error, Base64, DigestDerivator, blake3_256,
  digest_derivator_eq, digest_code, digest_code_len, digest_material_len, digest_derivator_of,
}

pub record DigestIdentifier : Type 0 where
  pub derivator : DigestDerivator
  pub digest : Bytes

unfoldable pub digest_identifier_beq : DigestIdentifier → DigestIdentifier → Bool
digest_identifier_beq a b = a.derivator == b.derivator && a.digest == b.digest

pub digest_identifier_beq_iff :
    (a b : DigestIdentifier) → (digest_identifier_beq a b ≡ true) ↔ (a ≡ b)
unfolding digest_identifier_beq
digest_identifier_beq_iff a b = (
  λ h. ground (arith, eq_iff a.derivator b.derivator, eq_iff a.digest b.digest),
  λ h. ground (arith, eq_iff a.derivator b.derivator, eq_iff a.digest b.digest),
)

instance abbrev pub digest_identifier_eq : Eq DigestIdentifier
digest_identifier_eq = record { test = digest_identifier_beq; test_iff = digest_identifier_beq_iff }

-- `DigestIdentifier::default`
abbrev pub default : DigestIdentifier
default = record { derivator = blake3_256; digest = [] }

module _ (base64 : Base64) where
  -- `Derivable::to_str`
  unfoldable pub to_str : DigestIdentifier → Str
  unfolding digest_code
  to_str id = if is_empty id.digest then [] else digest_code id.derivator ++ base64.encode id.digest

  -- `DigestIdentifier::from_str`
  unfoldable pub from_str : Str → Result DigestIdentifier IdError
  unfolding digest_derivator_of digest_material_len digest_code_len
  from_str s = if is_empty s then ok default else do
    code ← digest_derivator_of s
    if eqb (length s) (digest_material_len code)
        then (do
          let n = digest_code_len code
          bytes ←
              ok_or (base64.decode (take (digest_material_len code - n) (drop n s)))
                base64_decoding_error
          ok (record { derivator = code; digest = bytes }))
        else err semantic_error
