-- ===== src/Tests/Samples.antt =====
-- Concrete stand-ins for the third-party code, at which the tests and witnesses run: an encoder of
-- bytes as 6-bit digits, a hash and a signature scheme that can be read off, and stores that are
-- functions.
use taple_core.Prelude.{
  not, is_empty, ℕ, ◌+◌, ◌*◌, ◌/◌, ◌%◌, ◌<◌, ◌≡◌, refl, sym, ap, Option, none, some, [], ◌∷◌, ◌++◌,
  arith, All, Str, nat_eq, list_eq, ◌==◌, length, if◌then◌else◌, Result, ok, err,
}
use taple_core.Identifier.{Bytes, Base64, blake3_256, ed25519}
use taple_core.Identifier.Digests.{DigestIdentifier}
use taple_core.Identifier.Keys.{KeyIdentifier}
use taple_core.Identifier.RoundTrip.{IsBytes, IsBase64}
use taple_core.Models.Errors.{DbError}
use taple_core.Models.Crypto.{Crypto}
use taple_core.Models.Proofs.{ValidationProof}
use taple_core.Validation.Defs.{Registers, IsRegisters}

-- Three bytes as four digits, and what is left as two or three.
abbrev pub encode : Bytes → Str
encode [] = []
encode (a ∷ []) = (a / 4) ∷ ((a % 4) * 16) ∷ []
encode (a ∷ b ∷ []) = (a / 4) ∷ ((a % 4) * 16 + b / 16) ∷ ((b % 16) * 4) ∷ []
encode (a ∷ b ∷ c ∷ bs) =
    (a / 4) ∷ ((a % 4) * 16 + b / 16) ∷ ((b % 16) * 4 + c / 64) ∷ (c % 64) ∷ encode bs

abbrev pub cons3 : ℕ → ℕ → ℕ → Option Bytes → Option Bytes
cons3 a b c none = none
cons3 a b c (some bs) = some (a ∷ b ∷ c ∷ bs)

abbrev pub decode : Str → Option Bytes
decode [] = some []
decode (p ∷ []) = none
decode (p ∷ q ∷ []) = some ((p * 4 + q / 16) ∷ [])
decode (p ∷ q ∷ r ∷ []) = some ((p * 4 + q / 16) ∷ ((q % 16) * 16 + r / 4) ∷ [])
decode (p ∷ q ∷ r ∷ s ∷ cs) =
    cons3 (p * 4 + q / 16) ((q % 16) * 16 + r / 4) ((r % 4) * 64 + s) (decode cs)

abbrev pub base64_sample : Base64
base64_sample = record { encode = encode; decode = decode }

some-cons1 : {a a' : ℕ} → a ≡ a' → some (a ∷ []) ≡ some (a' ∷ [])
some-cons1 h = cc

some-cons2 : {a a' b b' : ℕ} → a ≡ a' → b ≡ b' → some (a ∷ b ∷ []) ≡ some (a' ∷ b' ∷ [])
some-cons2 h k = cc

cons3-cong :
    {a a' b b' c c' : ℕ} {o : Option Bytes} {bs : Bytes}
    → a ≡ a'
    → b ≡ b'
    → c ≡ c'
    → o ≡ some bs
    → cons3 a b c o ≡ some (a' ∷ b' ∷ c' ∷ bs)
cons3-cong h k l e = rw (h, k, l, e)

decode-encode : (bs : Bytes) → IsBytes bs → decode (encode bs) ≡ some bs
decode-encode [] h = refl
decode-encode (a ∷ []) h = some-cons1 (omega (arith, h.0))
decode-encode (a ∷ b ∷ []) h = some-cons2 (omega (arith, h.0, h.1.0)) (omega (arith, h.0, h.1.0))
decode-encode (a ∷ b ∷ c ∷ bs) h =
    cons3-cong (omega (arith, h.1.0)) (omega (arith, h.1.0, h.1.1.0)) (omega (arith, h.1.1.0))
      (decode-encode bs h.1.1.1)

encode_ascii : (bs : Bytes) → IsBytes bs → All (λ c. c < 128) (encode bs)
encode_ascii [] h = tt
encode_ascii (a ∷ []) h = (omega (arith, h.0), (omega arith, tt))
encode_ascii (a ∷ b ∷ []) h = (omega (arith, h.0), (omega (arith, h.1.0), (omega arith, tt)))
encode_ascii (a ∷ b ∷ c ∷ bs) h = (
  omega (arith, h.0),
  (omega (arith, h.1.0), (omega (arith, h.1.1.0), (omega arith, encode_ascii bs h.1.1.1))),
)

length-encode : (bs : Bytes) → length (encode bs) ≡ (4 * length bs + 2) / 3
length-encode [] = omega arith
length-encode (a ∷ []) = omega arith
length-encode (a ∷ b ∷ []) = omega arith
length-encode (a ∷ b ∷ c ∷ bs) = omega (arith, length-encode bs)

pub base64_sample-IsBase64 : IsBase64 base64_sample
base64_sample-IsBase64 = record {
  decode-encode = decode-encode;
  encode_ascii = encode_ascii;
  length-encode = length-encode;
}

-- A hash is what is hashed, and a signature the public key with the message.
abbrev pub crypto_sample : Crypto
crypto_sample = record {
  digest = λ d bytes. bytes;
  sign = λ keys message. some (keys.public_key ++ message);
  is_public_key = λ d public_key. not (is_empty public_key);
  is_signature = λ d signature. not (is_empty signature);
  verify = λ d public_key message signature. signature == (public_key ++ message);
}

-- The registers as a function from the bytes of a subject's digest.
abbrev pub Store : Type 0
Store = Str → Result ValidationProof DbError

abbrev pub registers_sample : Registers Store
registers_sample = record {
  key = λ id. id.digest;
  get_validation_register = λ store id. store id.digest;
  set_validation_register = λ store id p. ok (λ k. if id.digest == k then ok p else store k);
}

abbrev pub stored : Result Store DbError → Store → Store
stored (ok s) t = s
stored (err e) t = t

pub registers_sample-IsRegisters : IsRegisters registers_sample
registers_sample-IsRegisters = record {
  get-key = λ s i j h. ap s h;
  get-set = λ s t i j p h. ap (λ r. stored r t j.digest) (sym h);
}

-- A key, and a digest.
abbrev pub key_of : ℕ → KeyIdentifier
key_of n = record { public_key = n ∷ []; derivator = ed25519 }

abbrev pub digest_of : ℕ → DigestIdentifier
digest_of n = record { derivator = blake3_256; digest = n ∷ [] }
