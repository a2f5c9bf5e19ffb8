-- ===== src/Gkdi/Envelope.antt =====
-- class GroupKeyEnvelope of src/dpapi_ng/_gkdi.py: the key of a group as the server returns it.
pub mod Pack
pub mod RoundTrip
use dpapi_ng.Base.{ℕ, ◌%◌, Bool, not, List, [], ◌∷◌, ◌==◌}
use dpapi_ng.Bytes.{Bytes}
use dpapi_ng.Bytes.Text.{Text}
use dpapi_ng.Bytes.Uuid.{Uuid}

pub record GroupKeyEnvelope : Type 0 where
  pub version : ℕ
  pub flags : ℕ
  pub l0 : ℕ
  pub l1 : ℕ
  pub l2 : ℕ
  pub root_key_identifier : Uuid
  pub kdf_algorithm : Text
  pub kdf_parameters : Bytes
  pub secret_algorithm : Text
  pub secret_parameters : Bytes
  pub private_key_length : ℕ
  pub public_key_length : ℕ
  pub domain_name : Text
  pub forest_name : Text
  pub l1_key : Bytes
  pub l2_key : Bytes

-- flags & 1: l2_key is a public key
unfoldable pub is_public_key : GroupKeyEnvelope → Bool
is_public_key rk = not (rk.flags % 2 == 0)
