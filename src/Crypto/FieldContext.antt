-- ===== src/Crypto/FieldContext.antt =====
-- crypto/field_context.go: the authenticated data and the key derivation domain of a sealed field.
pub mod Laws
use power_manage_sdk.Prelude.{
  ℕ, Bool, true, false, ◌||◌, not, ◌&&◌, List, [], ◌∷◌, ◌++◌, map, Bytes, codes, equal, is_empty,
  any, length, concat, take, decimal, Result, ok, err, refuse, ◌>>◌, if◌then◌else◌,
}

pub data ContextError : Type 0 where
  invalid_direction : ContextError
  empty_segment : ContextError

abbrev pub agent_to_control : Bytes
agent_to_control = codes "agent-to-control"

abbrev pub control_to_agent : Bytes
control_to_agent = codes "control-to-agent"

abbrev pub field_seal_version : Bytes
field_seal_version = codes "power-manage-field-seal:v1"

-- One round of both loops: the length, a colon, the segment.
unfoldable pub encode_segment : Bytes → Bytes
unfolding decimal
encode_segment segment = decimal (length segment) ++ (b':' ∷ segment)

unfoldable pub encode_segments : List Bytes → Bytes
unfolding encode_segment
encode_segments [] = []
encode_segments (segment ∷ segments) = encode_segment segment ++ encode_segments segments

abbrev pub context_segments : Bytes → Bytes → Bytes → List Bytes → List Bytes
context_segments direction message field bindings =
    field_seal_version ∷ direction ∷ message ∷ field ∷ bindings

-- The authenticated data, and the info of the key derivation.
unfoldable pub field_seal_context :
    Bytes → Bytes → Bytes → List Bytes → Result ContextError (Bytes × Bytes)
unfolding equal encode_segments
field_seal_context direction message field bindings =
    let segments = context_segments direction message field bindings in
    refuse (not (equal direction agent_to_control) && not (equal direction control_to_agent))
      invalid_direction
    >> refuse (any is_empty segments) empty_segment
    >> ok (encode_segments segments, encode_segments (take 4 segments))
