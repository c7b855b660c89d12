-- ===== src/Identifier/RoundTrip.antt =====
-- Parsing undoes printing, at every identifier that the derivators can make.
use taple_core.Prelude.{
  ℕ, ◌+◌, ◌*◌, ◌/◌, ◌<◌, ◌≡◌, refl, ap, ◌⊎◌, inl, inr, [], ◌∷◌, ◌++◌, arith, Str, true, false, some,
  length, take_all, All, is_empty, ok,
}
use taple_core.Identifier.Derivators.{
  Bytes, Base64, DigestDerivator, blake3_256, blake3_512, sha2_256, sha2_512, sha3_256, sha3_512,
  is_boundary, KeyDerivator, ed25519, secp256k1, digest_code, key_code,
}
use taple_core.Identifier.Digests.{DigestIdentifier, default}
use taple_core.Identifier.Digests
use taple_core.Identifier.Keys.{KeyIdentifier}
use taple_core.Identifier.Keys

-- Each element is a `u8`.
abbrev pub IsBytes : Bytes → Type 0
IsBytes = All (λ b. b < 256)

-- What the crate documents: decoding undoes encoding, which gives ASCII text, and without padding
-- each byte costs four thirds of a character, rounded up.
pub record IsBase64 (base64 : Base64) : Type 0 where
  pub decode-encode : (bs : Bytes) → IsBytes bs → base64.decode (base64.encode bs) ≡ some bs
  pub encode_ascii : (bs : Bytes) → IsBytes bs → All (λ c. c < 128) (base64.encode bs)
  pub length-encode : (bs : Bytes) → length (base64.encode bs) ≡ (4 * length bs + 2) / 3

-- The sizes of the digests, in bytes.
abbrev pub digest_size : DigestDerivator → ℕ
digest_size blake3_256 = 32
digest_size sha2_256 = 32
digest_size sha3_256 = 32
digest_size _ = 64

-- The sizes of the public keys, in bytes.
abbrev pub key_size : KeyDerivator → ℕ
key_size ed25519 = 32
key_size secp256k1 = 65

ascii-is_boundary : (e : Str) → All (λ c. c < 128) e → is_boundary e ≡ true
ascii-is_boundary [] a = refl
ascii-is_boundary (c ∷ e) a = ground arith

not_empty : (d : DigestDerivator) (bs : Bytes) → length bs ≡ digest_size d → is_empty bs ≡ false
not_empty d (b ∷ bs) h = refl
not_empty blake3_256 [] h = absurd (omega arith)
not_empty _ [] h = absurd (omega arith)

not_empty_key : (d : KeyDerivator) (bs : Bytes) → length bs ≡ key_size d → is_empty bs ≡ false
not_empty_key d (b ∷ bs) h = refl
not_empty_key ed25519 [] h = absurd (omega arith)
not_empty_key secp256k1 [] h = absurd (omega arith)

-- The default identifier, or one whose digest has the size that its derivator makes.
abbrev pub IsDigest : DigestIdentifier → Type 0
IsDigest id = (id ≡ default) ⊎ (IsBytes id.digest × (length id.digest ≡ digest_size id.derivator))

-- A public key of the size that its scheme has.
abbrev pub IsKey : KeyIdentifier → Type 0
IsKey id = IsBytes id.public_key × (length id.public_key ≡ key_size id.derivator)

module _ (base64 : Base64) where
  to_str-code :
      (id : DigestIdentifier)
      → length id.digest ≡ digest_size id.derivator
      → Digests.to_str base64 id ≡ digest_code id.derivator ++ base64.encode id.digest
  unfolding Digests.to_str
  to_str-code id h = rw (not_empty id.derivator id.digest h)

  to_str-key_code :
      (id : KeyIdentifier)
      → length id.public_key ≡ key_size id.derivator
      → Keys.to_str base64 id ≡ key_code id.derivator ++ base64.encode id.public_key
  unfolding Keys.to_str
  to_str-key_code id h = rw (not_empty_key id.derivator id.public_key h)

module _ (base64 : Base64) (laws : IsBase64 base64) where
  -- Each derivator, over an encoded digest `e` of the length that it expects.
  from_str-code :
      (d : DigestDerivator) (e bs : Str)
      → length e ≡ (4 * digest_size d + 2) / 3
      → All (λ c. c < 128) e
      → base64.decode e ≡ some bs
      → Digests.from_str base64 (digest_code d ++ e) ≡ ok (record { derivator = d; digest = bs })
  unfolding Digests.from_str digest_code
  from_str-code blake3_256 e bs n a h = rw (ascii-is_boundary e a, n, take_all 43 e n, h)
  from_str-code blake3_512 e bs n a h = rw (ascii-is_boundary e a, n, take_all 86 e n, h)
  from_str-code sha2_256 e bs n a h = rw (ascii-is_boundary e a, n, take_all 43 e n, h)
  from_str-code sha2_512 e bs n a h = rw (ascii-is_boundary e a, n, take_all 86 e n, h)
  from_str-code sha3_256 e bs n a h = rw (ascii-is_boundary e a, n, take_all 43 e n, h)
  from_str-code sha3_512 e bs n a h = rw (ascii-is_boundary e a, n, take_all 86 e n, h)

  from_str-key_code :
      (d : KeyDerivator) (e bs : Str)
      → length e ≡ (4 * key_size d + 2) / 3
      → All (λ c. c < 128) e
      → base64.decode e ≡ some bs
      → Keys.from_str base64 (key_code d ++ e) ≡ ok (record { public_key = bs; derivator = d })
  unfolding Keys.from_str key_code
  from_str-key_code ed25519 e bs n a h = rw (ascii-is_boundary e a, n, take_all 43 e n, h)
  from_str-key_code secp256k1 e bs n a h = rw (ascii-is_boundary e a, n, take_all 87 e n, h)

  from_str-to_str_cons :
      (d : DigestDerivator) (bs : Bytes)
      → IsBytes bs
      → length bs ≡ digest_size d
      → Digests.from_str base64 (digest_code d ++ base64.encode bs)
        ≡ ok (record { derivator = d; digest = bs })
  from_str-to_str_cons d bs b h =
      from_str-code d (base64.encode bs) bs (rw (laws.length-encode bs, h)) (laws.encode_ascii bs b)
        (laws.decode-encode bs b)

  -- Parsing the text of a digest identifier gives it back, if it is the default one or its digest
  -- has the size that its derivator makes.
  pub digest-from_str-to_str :
      (id : DigestIdentifier)
      → IsDigest id
      → Digests.from_str base64 (Digests.to_str base64 id) ≡ ok id
  digest-from_str-to_str id (inl e) = rw e (unfold Digests.from_str Digests.to_str in refl)
  digest-from_str-to_str id (inr (b, h)) =
      rw (to_str-code base64 id h) (from_str-to_str_cons id.derivator id.digest b h)

  -- Two digest identifiers with the same text are the same, if each is the default one or has a
  -- digest of the size that its derivator makes.
  pub digest-to_str_injective :
      (a b : DigestIdentifier)
      → IsDigest a
      → IsDigest b
      → Digests.to_str base64 a ≡ Digests.to_str base64 b
      → a ≡ b
  digest-to_str_injective a b ha hb e =
      cc (digest-from_str-to_str a ha, digest-from_str-to_str b hb, ap (Digests.from_str base64) e)

  -- Parsing the text of a key identifier gives it back, if its public key has the size that its
  -- scheme has.
  pub key-from_str-to_str :
      (id : KeyIdentifier) → IsKey id → Keys.from_str base64 (Keys.to_str base64 id) ≡ ok id
  key-from_str-to_str id (b, h) = rw (to_str-key_code base64 id h) (
      from_str-key_code id.derivator (base64.encode id.public_key) id.public_key
        (rw (laws.length-encode id.public_key, h)) (laws.encode_ascii id.public_key b)
        (laws.decode-encode id.public_key b))
