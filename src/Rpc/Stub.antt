-- ===== src/Rpc/Stub.antt =====
-- What Fault of src/dpapi_ng/_rpc/_pdu.py and Request and Response of src/dpapi_ng/_rpc/_request.py
-- hold beside the header and the security trailer, each with its part of pack and _unpack.
pub mod RoundTrip
use dpapi_ng.Base.{
  ℕ, zero, suc, ◌+◌, ◌-◌, ◌*◌, ◌/◌, ◌%◌, Bool, not, ◌==◌, Option, none, some, List, [], ◌∷◌, ◌++◌,
  length, replicate, slice, take, drop, leb, index, map_result, if◌then◌else◌, Result, ok, err,
  key_error, ◌>>=◌,
}
use dpapi_ng.Bytes.{Bytes, join, from_le, to_bytes}
use dpapi_ng.Bytes.Text.{Text}
use dpapi_ng.Bytes.Utf8.{encode_utf8, decode_utf8}
use dpapi_ng.Bytes.Uuid.{Uuid, bytes_le, uuid_from_bytes_le}
use dpapi_ng.Rpc.Syntax.{
  ContextElement, pack_context, unpack_context, ContextResult, pack_result, unpack_result,
  unpack_parts,
}

pub record Fault : Type 0 where
  pub alloc_hint : ℕ
  pub context_id : ℕ
  pub cancel_count : ℕ
  pub status : ℕ
  pub flags : ℕ
  pub stub_data : Bytes

unfoldable pub pack_fault : Fault → Result Bytes
pack_fault f = do
  b_alloc_hint ← to_bytes 4 f.alloc_hint
  b_context_id ← to_bytes 2 f.context_id
  b_cancel_count ← to_bytes 1 f.cancel_count
  b_flags ← to_bytes 1 f.flags
  b_status ← to_bytes 4 f.status
  ok (
      join (
        b_alloc_hint
        ∷ b_context_id
        ∷ b_cancel_count
        ∷ b_flags
        ∷ b_status
        ∷ (0 ∷ 0 ∷ 0 ∷ 0 ∷ [])
        ∷ f.stub_data
        ∷ []))

unfoldable pub unpack_fault : Bytes → Result Fault
unpack_fault view = do
  cancel_count ← index 6 view
  flags ← index 7 view
  ok (record {
    alloc_hint = from_le (slice 0 4 view);
    context_id = from_le (slice 4 6 view);
    cancel_count = cancel_count;
    flags = flags;
    status = from_le (slice 8 12 view);
    stub_data = drop 16 view;
  })

pub record Request : Type 0 where
  pub alloc_hint : ℕ
  pub context_id : ℕ
  pub opnum : ℕ
  pub obj : Option Uuid
  pub stub_data : Bytes

abbrev pub obj_bytes : Option Uuid → Bytes
obj_bytes none = []
obj_bytes (some obj) = bytes_le obj

unfoldable pub pack_request : Request → Result Bytes
pack_request r = do
  b_alloc_hint ← to_bytes 4 r.alloc_hint
  b_context_id ← to_bytes 2 r.context_id
  b_opnum ← to_bytes 2 r.opnum
  ok (join (b_alloc_hint ∷ b_context_id ∷ b_opnum ∷ obj_bytes r.obj ∷ r.stub_data ∷ []))

-- packet_flags & PFC_OBJECT_UUID
abbrev pub has_obj : ℕ → Bool
has_obj packet_flags = packet_flags / 128 % 2 == 1

unfoldable pub unpack_obj : Bool → Bytes → Result (Option Uuid × Bytes)
unpack_obj with_obj view =
    if with_obj
    then (do obj ← uuid_from_bytes_le (slice 0 16 view); ok (some obj, drop 16 view))
    else ok (none, view)

unfoldable pub unpack_request : ℕ → Bytes → Result Request
unpack_request packet_flags view = do
  (obj, stub_data) ← unpack_obj (has_obj packet_flags) (drop 8 view)
  ok (record {
    alloc_hint = from_le (slice 0 4 view);
    context_id = from_le (slice 4 6 view);
    opnum = from_le (slice 6 8 view);
    obj = obj;
    stub_data = stub_data;
  })

pub record Response : Type 0 where
  pub alloc_hint : ℕ
  pub context_id : ℕ
  pub cancel_count : ℕ
  pub stub_data : Bytes

unfoldable pub pack_response : Response → Result Bytes
pack_response r = do
  b_alloc_hint ← to_bytes 4 r.alloc_hint
  b_context_id ← to_bytes 2 r.context_id
  b_cancel_count ← to_bytes 1 r.cancel_count
  ok (join (b_alloc_hint ∷ b_context_id ∷ b_cancel_count ∷ (0 ∷ []) ∷ r.stub_data ∷ []))

unfoldable pub unpack_response : Bytes → Result Response
unpack_response view = do
  cancel_count ← index 6 view
  ok (record {
    alloc_hint = from_le (slice 0 4 view);
    context_id = from_le (slice 4 6 view);
    cancel_count = cancel_count;
    stub_data = drop 8 view;
  })
