-- ===== src/Tests/Databases.antt =====
-- The in-memory store with two entries, and a register in it.
use taple_core.Prelude.{
  ◌≡◌, ◌↔◌, ◌⊎◌, refl, sym, Bool, true, false, Option, none, some, List, [], ◌∷◌, arith, Str, text,
  nat_eq, list_eq, ◌==◌, Bool-cases, inl, inr, if◌then◌else◌, Result, ok, err,
}
use taple_core.Identifier.{Bytes}
use taple_core.Models.Errors.{DbError}
use taple_core.Models.Proofs.{ValidationProof, proof_beq, proof_beq→eq}
use taple_core.Database.Memory.{DataStore, get, put, del, get-put}
use taple_core.Database.Memory.Sorted.{IsSorted, get-del}
use taple_core.Database.Iterators.{items, matching, first_matches, items-matching_iff}
use taple_core.Database.Collections.{Codec, IsCodec}
use taple_core.Database.Registers.{memory_registers, memory_registers-IsRegisters}
use taple_core.Validation.Defs.{IsRegisters}
use taple_core.Tests.Samples.{base64_sample}
use taple_core.Tests.Models.{proof_sample}

abbrev store_sample : DataStore
store_sample = (text "a", 1 ∷ []) ∷ (text "c", 2 ∷ []) ∷ []

store_sample-IsSorted : IsSorted store_sample
store_sample-IsSorted = ((refl, tt), (tt, tt))

put_sample :
    put store_sample (text "b") (3 ∷ [])
    ≡ (text "a", 1 ∷ []) ∷ (text "b", 3 ∷ []) ∷ (text "c", 2 ∷ []) ∷ []
unfolding put taple_core.Prelude.list_beq
put_sample = refl

get-put_example :
    get (put store_sample (text "b") (3 ∷ [])) (text "b")
    ≡ (if text "b" == text "b" then ok (3 ∷ []) else get store_sample (text "b"))
get-put_example = get-put store_sample (text "b") (text "b") (3 ∷ [])

get-del_example :
    get (del store_sample (text "a")) (text "a")
    ≡ (if text "a" == text "a" then err DbError.entry_not_found else get store_sample (text "a"))
get-del_example = get-del store_sample (text "a") (text "a") store_sample-IsSorted

-- A codec that writes one proof.
abbrev codec_sample : Codec ValidationProof
codec_sample = record {
  serialize = λ p. if proof_beq p (proof_sample 3) then some (3 ∷ []) else none;
  deserialize = λ bytes. if bytes == (3 ∷ []) then some (proof_sample 3) else none;
}

written :
    (b : Bool) (p : ValidationProof) (bytes : Bytes)
    → (b ≡ true → p ≡ proof_sample 3)
    → (if b then some (3 ∷ []) else none) ≡ some bytes
    → (if bytes == (3 ∷ []) then some (proof_sample 3) else none) ≡ some p
unfolding taple_core.Prelude.list_beq
written true p bytes is h = ground (arith, h, is refl)
written false p bytes is h = absurd (ground (arith, h))

codec_sample-IsCodec : IsCodec codec_sample
codec_sample-IsCodec = record {
  deserialize-serialize = λ p bytes h.
      written (proof_beq p (proof_sample 3)) p bytes (proof_beq→eq p (proof_sample 3)) h;
}

memory_registers-IsRegisters_example : IsRegisters (memory_registers base64_sample codec_sample)
memory_registers-IsRegisters_example =
    memory_registers-IsRegisters base64_sample codec_sample codec_sample-IsCodec

-- The key `c` stands behind another, so a loop over it sees nothing.
items_blocked : items (text "c") store_sample ≡ []
unfolding items
items_blocked = refl

matching_blocked : matching (text "c") store_sample ≡ ([], 2 ∷ []) ∷ []
unfolding matching
matching_blocked = refl

items-matching_iff_example :
    (items (text "c") store_sample ≡ matching (text "c") store_sample)
    ↔ ((matching (text "c") store_sample ≡ []) ⊎ (first_matches (text "c") store_sample ≡ true))
items-matching_iff_example = items-matching_iff (text "c") store_sample store_sample-IsSorted
