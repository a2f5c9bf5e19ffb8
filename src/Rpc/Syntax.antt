-- ===== src/Rpc/Syntax.antt =====
-- SyntaxId, ContextElement and ContextResult of src/dpapi_ng/_rpc/_bind.py: the parts of the bind
-- packets.
pub mod RoundTrip
use dpapi_ng.Base.{
  ℕ, zero, suc, ◌+◌, ◌*◌, List, [], ◌∷◌, ◌++◌, length, slice, drop, map_result, Result, ok, err,
  ◌>>=◌,
}
use dpapi_ng.Bytes.{Bytes, join, from_le, to_bytes}
use dpapi_ng.Bytes.Uuid.{Uuid, bytes_le, uuid_from_bytes_le}
use dpapi_ng.Rpc.Enums.{ContextResultCode, context_result_code_value, context_result_code_of}

pub record SyntaxId : Type 0 where
  pub uuid : Uuid
  pub version : ℕ
  pub version_minor : ℕ

-- SyntaxId.pack
unfoldable pub pack_syntax : SyntaxId → Result Bytes
pack_syntax s = do
  b_version ← to_bytes 2 s.version
  b_version_minor ← to_bytes 2 s.version_minor
  ok (join (bytes_le s.uuid ∷ b_version ∷ b_version_minor ∷ []))

-- SyntaxId.unpack
unfoldable pub unpack_syntax : Bytes → Result SyntaxId
unpack_syntax view = do
  uuid ← uuid_from_bytes_le (slice 0 16 view)
  ok (record {
    uuid = uuid;
    version = from_le (slice 16 18 view);
    version_minor = from_le (slice 18 20 view);
  })

-- `for _ in range(n)` over parts of `width` bytes each
unfoldable pub unpack_parts : {A : Type 0} → (Bytes → Result A) → ℕ → ℕ → Bytes → Result (List A)
unpack_parts unpack width zero view = ok []
unpack_parts unpack width (suc n) view = do
  part ← unpack view
  parts ← unpack_parts unpack width n (drop width view)
  ok (part ∷ parts)

pub record ContextElement : Type 0 where
  pub context_id : ℕ
  pub abstract_syntax : SyntaxId
  pub transfer_syntaxes : List SyntaxId

-- ContextElement.pack
unfoldable pub pack_context : ContextElement → Result Bytes
pack_context c = do
  b_context_id ← to_bytes 2 c.context_id
  b_num_transfers ← to_bytes 2 (length c.transfer_syntaxes)
  b_abstract ← pack_syntax c.abstract_syntax
  b_transfers ← map_result pack_syntax c.transfer_syntaxes
  ok (join (b_context_id ∷ b_num_transfers ∷ b_abstract ∷ join b_transfers ∷ []))

-- ContextElement.unpack
unfoldable pub unpack_context : Bytes → Result ContextElement
unpack_context view = do
  abstract_syntax ← unpack_syntax (drop 4 view)
  transfer_syntaxes ← unpack_parts unpack_syntax 20 (from_le (slice 2 4 view)) (drop 24 view)
  ok (record {
    context_id = from_le (slice 0 2 view);
    abstract_syntax = abstract_syntax;
    transfer_syntaxes = transfer_syntaxes;
  })

pub record ContextResult : Type 0 where
  pub result : ContextResultCode
  pub reason : ℕ
  pub syntax : Uuid
  pub syntax_version : ℕ

-- ContextResult.pack
unfoldable pub pack_result : ContextResult → Result Bytes
pack_result r = do
  b_result ← to_bytes 2 (context_result_code_value r.result)
  b_reason ← to_bytes 2 r.reason
  b_syntax_version ← to_bytes 4 r.syntax_version
  ok (join (b_result ∷ b_reason ∷ bytes_le r.syntax ∷ b_syntax_version ∷ []))

-- ContextResult.unpack
unfoldable pub unpack_result : Bytes → Result ContextResult
unpack_result view = do
  result ← context_result_code_of (from_le (slice 0 2 view))
  syntax ← uuid_from_bytes_le (slice 4 20 view)
  ok (record {
    result = result;
    reason = from_le (slice 2 4 view);
    syntax = syntax;
    syntax_version = from_le (slice 20 24 view);
  })
