-- ===== src/Database/Layers.antt =====
-- database/layers/subject.rs, event.rs, keys.rs, signature.rs and request.rs.
use taple_core.Prelude.{ℕ, List, [], ◌∷◌, text, union, Result, ok, err, ok_or, ◌>>=◌}
use taple_core.Identifier.{Base64, Bytes}
use taple_core.Identifier.Digests.{DigestIdentifier}
use taple_core.Identifier.Digests
use taple_core.Identifier.Keys.{KeyIdentifier}
use taple_core.Identifier.Keys
use taple_core.Models.Errors.{DbError, entry_not_found}
use taple_core.Models.Crypto.{KeyPair}
use taple_core.Models.Signatures.{Signature, signature_eq, Signed}
use taple_core.Models.Requests.{TapleRequest}
use taple_core.Models.Subjects.{Subject}
use taple_core.Models.Events.{Event}
use taple_core.Models.Proofs.{ValidationProof}
use taple_core.Database.Keys.{Element, s, n, get_key}
use taple_core.Database.Collections.{DatabaseCollection, Codec, del_at, get_at, set_at}

-- What the layers write.
pub record LayerCodecs : Type 0 where
  pub subject : Codec Subject
  pub event : Codec (Signed Event)
  pub keys : Codec KeyPair
  pub signatures : Codec (List Signature × ValidationProof)
  pub request : Codec TapleRequest

module _ {S : Type 0} (c : DatabaseCollection S) (base64 : Base64) (codecs : LayerCodecs) where
  abbrev pub subject_at : DigestIdentifier → List Element
  subject_at id = s (text "subject") ∷ s (Digests.to_str base64 id) ∷ []

  abbrev pub event_at : DigestIdentifier → ℕ → List Element
  event_at id sn = s (text "event") ∷ s (Digests.to_str base64 id) ∷ n sn ∷ []

  abbrev pub signatures_at : DigestIdentifier → ℕ → List Element
  signatures_at id sn = s (text "signature") ∷ s (Digests.to_str base64 id) ∷ n sn ∷ []

  abbrev pub keys_at : KeyIdentifier → List Element
  keys_at id = s (text "keys") ∷ s (Keys.to_str base64 id) ∷ []

  abbrev pub request_at : DigestIdentifier → List Element
  request_at id = s (text "taple-request") ∷ s (Digests.to_str base64 id) ∷ []

  unfoldable pub get_subject : DigestIdentifier → S → Result Subject DbError
  get_subject id = get_at c codecs.subject (subject_at id)

  unfoldable pub set_subject : DigestIdentifier → Subject → S → Result S DbError
  set_subject id subject = set_at c codecs.subject (subject_at id) subject

  unfoldable pub get_event : DigestIdentifier → ℕ → S → Result (Signed Event) DbError
  get_event id sn = get_at c codecs.event (event_at id sn)

  unfoldable pub set_event : DigestIdentifier → Signed Event → S → Result S DbError
  set_event id e = set_at c codecs.event (event_at id e.content.sn) e

  unfoldable pub get_keys : KeyIdentifier → S → Result KeyPair DbError
  get_keys id = get_at c codecs.keys (keys_at id)

  unfoldable pub del_keys : KeyIdentifier → S → Result S DbError
  del_keys id = del_at c (keys_at id)

  unfoldable pub get_signatures :
      DigestIdentifier → ℕ → S → Result (List Signature × ValidationProof) DbError
  get_signatures id sn = get_at c codecs.signatures (signatures_at id sn)

  unfoldable pub del_signatures : DigestIdentifier → ℕ → S → Result S DbError
  del_signatures id sn = del_at c (signatures_at id sn)

  -- The signatures that are there with the new ones.
  unfoldable pub total_signatures :
      Result Bytes DbError → List Signature → Result (List Signature) DbError
  total_signatures (ok bytes) signatures = do
    (other, _) ← ok_or (codecs.signatures.deserialize bytes) DbError.serialize_error
    ok (union signatures other)
  total_signatures (err entry_not_found) signatures = ok signatures
  total_signatures (err e) signatures = err e

  unfoldable pub set_signatures :
      DigestIdentifier → ℕ → List Signature → ValidationProof → S → Result S DbError
  unfolding total_signatures
  set_signatures id sn signatures proof store = do
    key ← get_key (signatures_at id sn)
    total ← total_signatures (c.get store key) signatures
    bytes ← ok_or (codecs.signatures.serialize (total, proof)) DbError.serialize_error
    c.put store key bytes

  unfoldable pub set_request : DigestIdentifier → TapleRequest → S → Result S DbError
  set_request id request = set_at c codecs.request (request_at id) request
