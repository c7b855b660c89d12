-- ===== src/Database/Collections/Frames.antt =====
-- What a write or a deletion of one entry means for reading another.
use taple_core.Prelude.{
  ◌≡◌, refl, sym, ◌∙◌, true, false, List, ◌∷◌, nat_eq, list_eq, ◌==◌, ok, err, ok_or, ◌>>=◌,
  >>=-eq-ok,
}
use taple_core.Models.Errors.{DbError, serialize_error, deserialize_error}
use taple_core.Database.Keys.{Element, join, get_key}
use taple_core.Database.Collections.{
  DatabaseCollection, IsCollection, Codec, IsCodec, serialized, del_at, get_at, set_at,
}

module _ {S : Type 0} (c : DatabaseCollection S) (laws : IsCollection c) where
  module _ {B : Type 0} (codec : Codec B) where
    get_at-text :
        (e : Element) (es : List Element) (store : S)
        → get_at c codec (e ∷ es) store
          ≡ (c.get store (join e es) >>= λ bytes. ok_or (codec.deserialize bytes) deserialize_error)
    unfolding get_at get_key
    get_at-text e es store = refl

    -- A deletion under another key changes nothing.
    pub get_at-del_at_other :
        (e f : Element) (es fs : List Element) (s t : S)
        → (join e es == join f fs) ≡ false
        → del_at c (e ∷ es) s ≡ ok t
        → get_at c codec (f ∷ fs) t ≡ get_at c codec (f ∷ fs) s
    unfolding del_at get_key
    get_at-del_at_other e f es fs s t other h =
        get_at-text f fs t
        ∙ (rw (laws.get-del s t (join e es) (join f fs) h, other) refl ∙ sym (get_at-text f fs s))

    pub get_at-del_at_same :
        (e f : Element) (es fs : List Element) (s t : S)
        → (join e es == join f fs) ≡ true
        → del_at c (e ∷ es) s ≡ ok t
        → get_at c codec (f ∷ fs) t ≡ err DbError.entry_not_found
    unfolding del_at get_key
    get_at-del_at_same e f es fs s t same h =
        get_at-text f fs t ∙ rw (laws.get-del s t (join e es) (join f fs) h, same) refl

  module _ {A B : Type 0} (codec : Codec A) (other_codec : Codec B) where
    -- A write under another key changes nothing, of whatever type it is.
    pub get_at-set_at_other :
        (e f : Element) (es fs : List Element) (a : A) (s t : S)
        → (join e es == join f fs) ≡ false
        → set_at c codec (e ∷ es) a s ≡ ok t
        → get_at c other_codec (f ∷ fs) t ≡ get_at c other_codec (f ∷ fs) s
    unfolding set_at get_key
    get_at-set_at_other e f es fs a s t other h =
        let (bytes, _, put) = >>=-eq-ok (ok_or (codec.serialize a) serialize_error) _ h in
        get_at-text other_codec f fs t
        ∙ (rw (laws.get-put s t (join e es) (join f fs) bytes put, other) refl
            ∙ sym (get_at-text other_codec f fs s))

  module _ {A : Type 0} (codec : Codec A) (codec_laws : IsCodec codec) where
    -- What is written under a key is read there.
    pub get_at-set_at :
        (e f : Element) (es fs : List Element) (a : A) (s t : S)
        → (join e es == join f fs) ≡ true
        → set_at c codec (e ∷ es) a s ≡ ok t
        → get_at c codec (f ∷ fs) t ≡ ok a
    unfolding set_at get_key
    get_at-set_at e f es fs a s t same h =
        let (bytes, written, put) = >>=-eq-ok (ok_or (codec.serialize a) serialize_error) _ h in
        let read =
          codec_laws.deserialize-serialize a bytes (serialized (codec.serialize a) written) in
        get_at-text codec f fs t
        ∙ rw (laws.get-put s t (join e es) (join f fs) bytes put, same, read) refl
