-- ===== src/Rpc/Packet/RoundTrip.antt =====
-- PDU of src/dpapi_ng/_rpc/_pdu.py: the bytes of pack, read by PDU.unpack.
use dpapi_ng.Base.{
  ℕ, ◌+◌, ◌-◌, ◌<◌, ◌≡◌, refl, arith, ◌==◌, false, Option, none, some, [], ◌++◌, append-nil, length,
  length-append, slice, drop, take-length, drop-append, take_last-append, drop_last-append, ok,
  ◌>>=◌,
}
use dpapi_ng.Bytes.{Bytes}
use dpapi_ng.Rpc.Enums.{
  PacketType, request, response, fault, bind, bind_ack, bind_nak, alter_context, alter_context_resp,
}
use dpapi_ng.Rpc.Pdu.{PduHeader, SecTrailer}
use dpapi_ng.Rpc.Pdu.RoundTrip.{
  FitsHeader, header_layout, length-header_layout, pack_header-layout, unpack_header-layout,
  FitsTrailer, trailer_layout, length-trailer_layout, pack_trailer-layout, unpack_trailer-layout,
}
use dpapi_ng.Rpc.Stub.RoundTrip.{
  FitsFault, fault_layout, pack_fault-layout, unpack_fault-layout, FitsRequest, request_layout,
  pack_request-layout, unpack_request-layout, FitsResponse, response_layout, pack_response-layout,
  unpack_response-layout,
}
use dpapi_ng.Rpc.Bind.RoundTrip.{
  FitsBind, bind_layout, pack_bind-layout, unpack_bind-layout, FitsBindAck, bind_ack_layout,
  pack_bind_ack-layout, unpack_bind_ack-layout, FitsBindNak, bind_nak_layout, pack_bind_nak-layout,
  unpack_bind_nak-layout,
}
use dpapi_ng.Rpc.Packet.{
  Body, fault_pdu, request_pdu, response_pdu, bind_pdu, bind_ack_pdu, bind_nak_pdu,
  alter_context_pdu, alter_context_response_pdu, Pdu, pack_body, pack_sec_trailer, trailer_of, pack,
  unpack_body, split_trailer, unpack,
}

-- The type that the registry has for a subclass.
abbrev pub type_of : Body → PacketType
type_of (fault_pdu f) = fault
type_of (request_pdu r) = request
type_of (response_pdu r) = response
type_of (bind_pdu b) = bind
type_of (bind_ack_pdu b) = bind_ack
type_of (bind_nak_pdu b) = bind_nak
type_of (alter_context_pdu b) = alter_context
type_of (alter_context_response_pdu b) = alter_context_resp

abbrev pub FitsBody : ℕ → Body → Type 0
FitsBody flags (fault_pdu f) = FitsFault f
FitsBody flags (request_pdu r) = FitsRequest flags r
FitsBody flags (response_pdu r) = FitsResponse r
FitsBody flags (bind_pdu b) = FitsBind b
FitsBody flags (bind_ack_pdu b) = FitsBindAck b
FitsBody flags (bind_nak_pdu b) = FitsBindNak b
FitsBody flags (alter_context_pdu b) = FitsBind b
FitsBody flags (alter_context_response_pdu b) = FitsBindAck b

abbrev pub body_layout : Body → Bytes
body_layout (fault_pdu f) = fault_layout f
body_layout (request_pdu r) = request_layout r
body_layout (response_pdu r) = response_layout r
body_layout (bind_pdu b) = bind_layout b
body_layout (bind_ack_pdu b) = bind_ack_layout b
body_layout (bind_nak_pdu b) = bind_nak_layout b
body_layout (alter_context_pdu b) = bind_layout b
body_layout (alter_context_response_pdu b) = bind_ack_layout b

pack_body-layout : (flags : ℕ) (b : Body) → FitsBody flags b → pack_body b ≡ ok (body_layout b)
unfolding pack_body
pack_body-layout flags (fault_pdu f) h = pack_fault-layout f h
pack_body-layout flags (request_pdu r) h = pack_request-layout flags r h
pack_body-layout flags (response_pdu r) h = pack_response-layout r h
pack_body-layout flags (bind_pdu b) h = pack_bind-layout b h
pack_body-layout flags (bind_ack_pdu b) h = pack_bind_ack-layout b h
pack_body-layout flags (bind_nak_pdu b) h = pack_bind_nak-layout b h
pack_body-layout flags (alter_context_pdu b) h = pack_bind-layout b h
pack_body-layout flags (alter_context_response_pdu b) h = pack_bind_ack-layout b h

unpack_body-layout :
    (flags : ℕ) (b : Body) → FitsBody flags b → unpack_body (type_of b) flags (body_layout b) ≡ ok b
unfolding unpack_body
unpack_body-layout flags (fault_pdu f) h = rw (unpack_fault-layout f h)
unpack_body-layout flags (request_pdu r) h = rw (unpack_request-layout flags r h)
unpack_body-layout flags (response_pdu r) h = rw (unpack_response-layout r h)
unpack_body-layout flags (bind_pdu b) h = rw (unpack_bind-layout b h)
unpack_body-layout flags (bind_ack_pdu b) h = rw (unpack_bind_ack-layout b h)
unpack_body-layout flags (bind_nak_pdu b) h = rw (unpack_bind_nak-layout b h)
unpack_body-layout flags (alter_context_pdu b) h = rw (unpack_bind-layout b h)
unpack_body-layout flags (alter_context_response_pdu b) h = rw (unpack_bind_ack-layout b h)

abbrev pub sec_trailer_layout : Option SecTrailer → Bytes
sec_trailer_layout none = []
sec_trailer_layout (some t) = trailer_layout t

-- The header's auth_len says how long the auth value is; no trailer is none of it.
abbrev pub FitsAuth : ℕ → Option SecTrailer → Type 0
FitsAuth auth_len none = auth_len ≡ 0
FitsAuth auth_len (some t) = FitsTrailer t × (auth_len ≡ length t.auth_value) × (0 < auth_len)

-- A packet that its header describes: type, lengths and flags.
pub record IsValid (p : Pdu) : Type 0 where
  pub header : FitsHeader p.header
  pub packet_type : p.header.packet_type ≡ type_of p.body
  pub body : FitsBody p.header.packet_flags p.body
  pub auth : FitsAuth p.header.auth_len p.sec_trailer
  pub trailer : trailer_of p.body p.sec_trailer ≡ p.sec_trailer
  pub frag_len :
      p.header.frag_len
      ≡ 16 + (length (body_layout p.body) + length (sec_trailer_layout p.sec_trailer))

pack_sec_trailer-layout :
    (auth_len : ℕ) (t : Option SecTrailer)
    → FitsAuth auth_len t
    → pack_sec_trailer t ≡ ok (sec_trailer_layout t)
pack_sec_trailer-layout auth_len none h = refl
pack_sec_trailer-layout auth_len (some t) (h, _, _) = pack_trailer-layout t h

split_trailer-layout :
    (auth_len : ℕ) (t : Option SecTrailer) (body : Bytes)
    → FitsAuth auth_len t
    → split_trailer auth_len (body ++ sec_trailer_layout t) ≡ ok (t, body)
unfolding split_trailer
split_trailer-layout auth_len none body h = rw (h, append-nil)
split_trailer-layout auth_len (some t) body (h, same, above) =
    let differ : (auth_len == 0) ≡ false = ground arith in
    let n : auth_len + 8 ≡ length (trailer_layout t) = rw (length-trailer_layout t, same) in
    rw (
      differ,
      n,
      take_last-append body (trailer_layout t),
      drop_last-append body (trailer_layout t),
      unpack_trailer-layout t h,
    )

layout : Pdu → Bytes
layout p = header_layout p.header ++ (body_layout p.body ++ sec_trailer_layout p.sec_trailer)

pack-layout : (p : Pdu) → IsValid p → pack p ≡ ok (layout p)
unfolding pack layout
pack-layout p h = rw (
  pack_body-layout p.header.packet_flags p.body h.body,
  pack_header-layout p.header h.header,
  h.trailer,
  pack_sec_trailer-layout p.header.auth_len p.sec_trailer h.auth,
  append-nil,
)

drop-header : (h : PduHeader) (rest : Bytes) → drop 16 (header_layout h ++ rest) ≡ rest
drop-header h rest = rw (length-header_layout h) at (drop-append (header_layout h) rest)

-- The fragment behind the header.
fragment :
    (frag_len : ℕ) (h : PduHeader) (bs : Bytes)
    → frag_len ≡ 16 + length bs
    → slice 16 frag_len (header_layout h ++ bs) ≡ bs
fragment frag_len h bs e =
    let n : frag_len - 16 ≡ length bs = omega arith in rw (n, drop-header h bs) (take-length bs)

typed_body :
    (packet_type : PacketType) (flags : ℕ) (b : Body)
    → packet_type ≡ type_of b
    → FitsBody flags b
    → unpack_body packet_type flags (body_layout b) ≡ ok b
typed_body packet_type flags b e h = rw e (unpack_body-layout flags b h)

unpack-layout : (p : Pdu) → IsValid p → unpack (layout p) ≡ ok p
unfolding unpack layout
unpack-layout p h =
    let bs = body_layout p.body ++ sec_trailer_layout p.sec_trailer in
    let n : length bs ≡ length (body_layout p.body) + length (sec_trailer_layout p.sec_trailer) =
      length-append (body_layout p.body) (sec_trailer_layout p.sec_trailer) in
    rw (
      unpack_header-layout p.header bs h.header,
      fragment p.header.frag_len p.header bs (rw n h.frag_len),
      split_trailer-layout p.header.auth_len p.sec_trailer (body_layout p.body) h.auth,
      typed_body p.header.packet_type p.header.packet_flags p.body h.packet_type h.body,
      h.trailer,
    )

-- A packet of any of the eight kinds whose fields fit their widths, with an encodable address, at
-- most 255 contexts, results or versions, and whose header describes it (its type, its fragment
-- length, its auth length and its object flag), a BindNak without a trailer, any trailer with an
-- auth value that is not empty, is packed without an error, and PDU.unpack returns it unchanged.
pub unpack-pack_pdu : (p : Pdu) → IsValid p → (pack p >>= unpack) ≡ ok p
unpack-pack_pdu p h = rw (pack-layout p h) (unpack-layout p h)
