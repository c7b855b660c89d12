-- ===== src/Governance/Payload.antt =====
-- The readers of a governance's properties at the end of governance/inner_governance.rs.
pub mod Reading
use taple_core.Prelude.{
  ℕ, Bool, true, false, Option, none, some, List, [], ◌∷◌, Str, String, text, nat_eq, list_eq, ◌==◌,
  contains, if◌then◌else◌, Result, ok, err, ok_or, map_err, ◌>>=◌, Fault, raise, panic, unwrap,
}
use taple_core.Identifier.{Base64, IdError}
use taple_core.Identifier.Keys.{KeyIdentifier, key_identifier_eq, from_str}
use taple_core.Models.Values.{Value, Json}
use taple_core.Governance.Errors.{
  RequestError, InternalError, invalid_governance_payload, schema_not_found_in_policies,
}
use taple_core.Governance.Policies.{Quorum}
use taple_core.Governance.Roles.{Members, lookup}

-- What a reader returns: a value, an internal error, or a panic.
abbrev pub Read : Type 0 → Type 0
Read A = Result A (Fault InternalError)

-- `ok_or(InternalError::InvalidGovernancePayload(_))`
abbrev ok_or_payload : {A : Type 0} → Option A → String → Read A
ok_or_payload none code = err (raise (invalid_governance_payload code))
ok_or_payload (some a) code = ok a

module _ {Patch : Type 0} (json : Json Patch) where
  unfoldable pub get_as_str : Value → Str → Read Str
  get_as_str v key = do
    field ← ok_or_payload (json.get v key) "6"
    ok_or_payload (json.as_str field) "7"

  unfoldable pub get_as_array : Value → Str → Read (List Value)
  get_as_array v key = do
    field ← ok_or_payload (json.get v key) "8"
    ok_or_payload (json.as_array field) "9"

  -- `get_schema_from_policies`; the outer error is the panic of an entry with no text `id`.
  unfoldable pub get_schema_from_policies :
      List Value → Str → Result (Result Value RequestError) (Fault InternalError)
  get_schema_from_policies [] key = ok (err schema_not_found_in_policies)
  get_schema_from_policies (policy ∷ policies) key =
      let rest = get_schema_from_policies policies key in
      do
        field ← unwrap (json.get policy (text "id"))
        id ← unwrap (json.as_str field)
        if id == key then ok (ok policy) else rest

  -- The free function `get_quorum`; `quorum_of` is `serde_json::from_value`, unwrapped.
  unfoldable pub get_quorum :
      {F : Type 0} → (Value → Option (Quorum F)) → Value → Str → Read (Quorum F)
  get_quorum quorum_of v key = do
    stage ← ok_or_payload (json.get v key) "10"
    field ← ok_or_payload (json.get stage (text "quorum")) "11"
    unwrap (quorum_of field)

  module _ (base64 : Base64) where
    -- The key of a member, whose error the reader replaces.
    member_key : Str → Read KeyIdentifier
    member_key s = elim (from_str base64 s) [
      | ok k ↦ ok k
      | err IdError.panic ↦ err panic
      | err _ ↦ err (raise (invalid_governance_payload "12: Invalid Keyidentifier in member"))
    ]

    -- `insert` into the set of keys and into the map of names, both of which must be new.
    unfoldable pub add_member : Members → Str → KeyIdentifier → Read Members
    add_member m name k =
        if contains m.0 k
        then err (raise (invalid_governance_payload "13: Repeated Id in members"))
        else elim (lookup name m.1) [
          | some _ ↦ err (raise (invalid_governance_payload "14: Repeated Name in members"))
          | none ↦ ok (k ∷ m.0, (name, k) ∷ m.1)
        ]

    -- One round of the loop over the members.
    unfoldable pub read_member : Members → Value → Read Members
    unfolding member_key
    read_member m member = do
      id_field ← unwrap (json.get member (text "id"))
      id ← unwrap (json.as_str id_field)
      name_field ← unwrap (json.get member (text "name"))
      name ← unwrap (json.as_str name_field)
      k ← member_key id
      add_member m name k

    unfoldable pub read_members : Members → List Value → Read Members
    read_members m [] = ok m
    read_members m (member ∷ rest) = do m' ← read_member m member; read_members m' rest

    -- `get_members_from_governance`
    unfoldable pub get_members_from_governance : Value → Read Members
    get_members_from_governance properties = do
      field ← unwrap (json.get properties (text "members"))
      members ← unwrap (json.as_array field)
      read_members ([], []) members
