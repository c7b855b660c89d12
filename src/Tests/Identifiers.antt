-- ===== src/Tests/Identifiers.antt =====
-- Identifiers at the sample encoder.
use taple_core.Prelude.{ℕ, zero, suc, ◌≡◌, refl, inr, [], ◌∷◌, arith, ok}
use taple_core.Identifier.{Bytes, sha2_256, ed25519}
use taple_core.Identifier.Digests.{DigestIdentifier, default}
use taple_core.Identifier.Digests
use taple_core.Identifier.Keys.{KeyIdentifier}
use taple_core.Identifier.Keys
use taple_core.Identifier.RoundTrip.{
  IsBytes, digest-from_str-to_str, digest-to_str_injective, key-from_str-to_str,
}
use taple_core.Tests.Samples.{base64_sample, base64_sample-IsBase64}

abbrev repeat : ℕ → Bytes
repeat zero = []
repeat (suc n) = 77 ∷ repeat n

repeat-IsBytes : (n : ℕ) → IsBytes (repeat n)
repeat-IsBytes zero = tt
repeat-IsBytes (suc n) = (omega arith, repeat-IsBytes n)

abbrev digest_sample : DigestIdentifier
digest_sample = record { derivator = sha2_256; digest = repeat 32 }

abbrev key_sample : KeyIdentifier
key_sample = record { derivator = ed25519; public_key = repeat 32 }

digest-from_str-to_str_example :
    Digests.from_str base64_sample (Digests.to_str base64_sample digest_sample) ≡ ok digest_sample
digest-from_str-to_str_example =
    digest-from_str-to_str base64_sample base64_sample-IsBase64 digest_sample
      (inr (repeat-IsBytes 32, refl))

digest-to_str_injective_example : digest_sample ≡ digest_sample
digest-to_str_injective_example =
    digest-to_str_injective base64_sample base64_sample-IsBase64 digest_sample digest_sample
      (inr (repeat-IsBytes 32, refl)) (inr (repeat-IsBytes 32, refl)) refl

key-from_str-to_str_example :
    Keys.from_str base64_sample (Keys.to_str base64_sample key_sample) ≡ ok key_sample
key-from_str-to_str_example =
    key-from_str-to_str base64_sample base64_sample-IsBase64 key_sample (repeat-IsBytes 32, refl)
