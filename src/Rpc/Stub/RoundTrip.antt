-- ===== src/Rpc/Stub/RoundTrip.antt =====
-- Fault, Request and Response of src/dpapi_ng/_rpc: the bytes of pack, read by _unpack.
use dpapi_ng.Base.{ℕ, ◌^◌, ◌<◌, ◌≡◌, true, false, Option, none, some, ◌∷◌, ◌++◌, append-nil, ok}
use dpapi_ng.Bytes.{Bytes, le_bytes}
use dpapi_ng.Bytes.RoundTrip.{from_le-le_bytes, to_bytes-ok, to_bytes-byte}
use dpapi_ng.Bytes.Uuid.{Uuid, IsUuid, uuid_from_bytes_le-bytes_le}
use dpapi_ng.Rpc.Stub.{
  Fault, pack_fault, unpack_fault, Request, obj_bytes, pack_request, has_obj, unpack_obj,
  unpack_request, Response, pack_response, unpack_response,
}

pub record FitsFault (f : Fault) : Type 0 where
  pub alloc_hint : f.alloc_hint < 256 ^ 4
  pub context_id : f.context_id < 256 ^ 2
  pub cancel_count : f.cancel_count < 256
  pub status : f.status < 256 ^ 4
  pub flags : f.flags < 256

pub fault_layout : Fault → Bytes
fault_layout f =
    le_bytes 4 f.alloc_hint
    ++ (le_bytes 2 f.context_id
        ++ (f.cancel_count ∷ f.flags ∷ (le_bytes 4 f.status ++ (0 ∷ 0 ∷ 0 ∷ 0 ∷ f.stub_data))))

pub pack_fault-layout : (f : Fault) → FitsFault f → pack_fault f ≡ ok (fault_layout f)
unfolding pack_fault fault_layout
pack_fault-layout f h = rw (
  to_bytes-ok 4 f.alloc_hint h.alloc_hint,
  to_bytes-ok 2 f.context_id h.context_id,
  to_bytes-byte f.cancel_count h.cancel_count,
  to_bytes-byte f.flags h.flags,
  to_bytes-ok 4 f.status h.status,
  append-nil,
)

pub unpack_fault-layout : (f : Fault) → FitsFault f → unpack_fault (fault_layout f) ≡ ok f
unfolding unpack_fault fault_layout
unpack_fault-layout f h = rw (
  from_le-le_bytes 4 f.alloc_hint h.alloc_hint,
  from_le-le_bytes 2 f.context_id h.context_id,
  from_le-le_bytes 4 f.status h.status,
)

-- The flag of the header says whether there is an object.
abbrev pub FlagsObj : ℕ → Option Uuid → Type 0
FlagsObj packet_flags none = has_obj packet_flags ≡ false
FlagsObj packet_flags (some obj) = (has_obj packet_flags ≡ true) × IsUuid obj

pub record FitsRequest (packet_flags : ℕ) (r : Request) : Type 0 where
  pub alloc_hint : r.alloc_hint < 256 ^ 4
  pub context_id : r.context_id < 256 ^ 2
  pub opnum : r.opnum < 256 ^ 2
  pub obj : FlagsObj packet_flags r.obj

pub request_layout : Request → Bytes
request_layout r =
    le_bytes 4 r.alloc_hint
    ++ (le_bytes 2 r.context_id ++ (le_bytes 2 r.opnum ++ (obj_bytes r.obj ++ r.stub_data)))

pub pack_request-layout :
    (packet_flags : ℕ) (r : Request)
    → FitsRequest packet_flags r
    → pack_request r ≡ ok (request_layout r)
unfolding pack_request request_layout
pack_request-layout packet_flags r h = rw (
  to_bytes-ok 4 r.alloc_hint h.alloc_hint,
  to_bytes-ok 2 r.context_id h.context_id,
  to_bytes-ok 2 r.opnum h.opnum,
  append-nil,
)

obj-read :
    (packet_flags : ℕ) (obj : Option Uuid) (rest : Bytes)
    → FlagsObj packet_flags obj
    → unpack_obj (has_obj packet_flags) (obj_bytes obj ++ rest) ≡ ok (obj, rest)
unfolding unpack_obj
obj-read packet_flags none rest h = rw h
obj-read packet_flags (some obj) rest (h, fits) = rw (h, uuid_from_bytes_le-bytes_le obj fits)

pub unpack_request-layout :
    (packet_flags : ℕ) (r : Request)
    → FitsRequest packet_flags r
    → unpack_request packet_flags (request_layout r) ≡ ok r
unfolding unpack_request request_layout
unpack_request-layout packet_flags r h = rw (
  obj-read packet_flags r.obj r.stub_data h.obj,
  from_le-le_bytes 4 r.alloc_hint h.alloc_hint,
  from_le-le_bytes 2 r.context_id h.context_id,
  from_le-le_bytes 2 r.opnum h.opnum,
)

pub record FitsResponse (r : Response) : Type 0 where
  pub alloc_hint : r.alloc_hint < 256 ^ 4
  pub context_id : r.context_id < 256 ^ 2
  pub cancel_count : r.cancel_count < 256

pub response_layout : Response → Bytes
response_layout r =
    le_bytes 4 r.alloc_hint ++ (le_bytes 2 r.context_id ++ (r.cancel_count ∷ 0 ∷ r.stub_data))

pub pack_response-layout :
    (r : Response) → FitsResponse r → pack_response r ≡ ok (response_layout r)
unfolding pack_response response_layout
pack_response-layout r h = rw (
  to_bytes-ok 4 r.alloc_hint h.alloc_hint,
  to_bytes-ok 2 r.context_id h.context_id,
  to_bytes-byte r.cancel_count h.cancel_count,
  append-nil,
)

pub unpack_response-layout :
    (r : Response) → FitsResponse r → unpack_response (response_layout r) ≡ ok r
unfolding unpack_response response_layout
unpack_response-layout r h =
    rw (from_le-le_bytes 4 r.alloc_hint h.alloc_hint, from_le-le_bytes 2 r.context_id h.context_id)
