-- ===== src/Rpc/Packet.antt =====
-- class PDU of src/dpapi_ng/_rpc/_pdu.py with the registry of its subclasses: pack of every packet,
-- and PDU.unpack.
pub mod RoundTrip
use dpapi_ng.Base.{
  ℕ, ◌+◌, ◌-◌, ◌==◌, Bool, Option, none, some, List, [], ◌∷◌, ◌++◌, length, slice, take_last,
  drop_last, if◌then◌else◌, Result, ok, err, key_error, ◌>>=◌,
}
use dpapi_ng.Bytes.{Bytes, join}
use dpapi_ng.Rpc.Enums.{
  PacketType, request, ping, response, fault, working, nocall, reject, ack, cl_cancel, fack,
  cancel_ack, bind, bind_ack, bind_nak, alter_context, alter_context_resp, shutdown, co_cancel,
  orphaned,
}
use dpapi_ng.Rpc.Pdu.{
  PduHeader, pack_header, unpack_header, SecTrailer, pack_trailer, unpack_trailer,
}
use dpapi_ng.Rpc.Stub.{
  Fault, pack_fault, unpack_fault, Request, pack_request, unpack_request, Response, pack_response,
  unpack_response,
}
use dpapi_ng.Rpc.Bind.{
  Bind, pack_bind, unpack_bind, BindAck, pack_bind_ack, unpack_bind_ack, BindNak, pack_bind_nak,
  unpack_bind_nak,
}

-- The subclasses of PDU.
pub data Body : Type 0 where
  fault_pdu : Fault → Body
  request_pdu : Request → Body
  response_pdu : Response → Body
  bind_pdu : Bind → Body
  bind_ack_pdu : BindAck → Body
  bind_nak_pdu : BindNak → Body
  alter_context_pdu : Bind → Body
  alter_context_response_pdu : BindAck → Body

pub record Pdu : Type 0 where
  pub header : PduHeader
  pub sec_trailer : Option SecTrailer
  pub body : Body

unfoldable pub pack_body : Body → Result Bytes
pack_body (fault_pdu f) = pack_fault f
pack_body (request_pdu r) = pack_request r
pack_body (response_pdu r) = pack_response r
pack_body (bind_pdu b) = pack_bind b
pack_body (bind_ack_pdu b) = pack_bind_ack b
pack_body (bind_nak_pdu b) = pack_bind_nak b
pack_body (alter_context_pdu b) = pack_bind b
pack_body (alter_context_response_pdu b) = pack_bind_ack b

-- self.sec_trailer.pack() if self.sec_trailer else b""
abbrev pub pack_sec_trailer : Option SecTrailer → Result Bytes
pack_sec_trailer none = ok []
pack_sec_trailer (some t) = pack_trailer t

-- A BindNak is packed without its trailer, and is read without one.
abbrev pub trailer_of : Body → Option SecTrailer → Option SecTrailer
trailer_of (bind_nak_pdu b) t = none
trailer_of (fault_pdu f) t = t
trailer_of (request_pdu r) t = t
trailer_of (response_pdu r) t = t
trailer_of (bind_pdu b) t = t
trailer_of (bind_ack_pdu b) t = t
trailer_of (alter_context_pdu b) t = t
trailer_of (alter_context_response_pdu b) t = t

unfoldable pub pack : Pdu → Result Bytes
pack p = do
  b_body ← pack_body p.body
  b_header ← pack_header p.header
  b_trailer ← pack_sec_trailer (trailer_of p.body p.sec_trailer)
  ok (join (b_header ∷ b_body ∷ b_trailer ∷ []))

-- _PACKET_TYPE_REGISTRY[packet_type]
unfoldable pub unpack_body : PacketType → ℕ → Bytes → Result Body
unpack_body fault flags view = do f ← unpack_fault view; ok (fault_pdu f)
unpack_body request flags view = do r ← unpack_request flags view; ok (request_pdu r)
unpack_body response flags view = do r ← unpack_response view; ok (response_pdu r)
unpack_body bind flags view = do b ← unpack_bind view; ok (bind_pdu b)
unpack_body bind_ack flags view = do b ← unpack_bind_ack view; ok (bind_ack_pdu b)
unpack_body bind_nak flags view = do b ← unpack_bind_nak view; ok (bind_nak_pdu b)
unpack_body alter_context flags view = do b ← unpack_bind view; ok (alter_context_pdu b)
unpack_body alter_context_resp flags view = do
  b ← unpack_bind_ack view
  ok (alter_context_response_pdu b)
unpack_body ping flags view = err key_error
unpack_body working flags view = err key_error
unpack_body nocall flags view = err key_error
unpack_body reject flags view = err key_error
unpack_body ack flags view = err key_error
unpack_body cl_cancel flags view = err key_error
unpack_body fack flags view = err key_error
unpack_body cancel_ack flags view = err key_error
unpack_body shutdown flags view = err key_error
unpack_body co_cancel flags view = err key_error
unpack_body orphaned flags view = err key_error

-- The trailer of a packet, and the view without it
unfoldable pub split_trailer : ℕ → Bytes → Result (Option SecTrailer × Bytes)
split_trailer auth_len view = if auth_len == 0 then ok (none, view) else do
  t ← unpack_trailer (take_last (auth_len + 8) view)
  ok (some t, drop_last (auth_len + 8) view)

-- PDU.unpack
unfoldable pub unpack : Bytes → Result Pdu
unpack view = do
  header ← unpack_header view
  (sec_trailer, view') ← split_trailer header.auth_len (slice 16 header.frag_len view)
  body ← unpack_body header.packet_type header.packet_flags view'
  ok (record { header = header; sec_trailer = trailer_of body sec_trailer; body = body })
