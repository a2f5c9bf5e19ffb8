-- ===== src/Rpc/Client.antt =====
-- class RpcClient of src/dpapi_ng/_rpc/_client.py: what it makes of requests. The offsets for
-- encryption are those of the stub data in the packet.
pub mod Incoming
pub mod Exchange
pub mod Sealed
use dpapi_ng.Base.{
  ℕ, zero, suc, ◌+◌, ◌-◌, ◌*◌, ◌/◌, ◌%◌, ◌==◌, leb, Bool, true, false, ◌&&◌, not, Option, none,
  some, List, [], ◌∷◌, ◌++◌, length, replicate, slice, take, drop, index, if◌then◌else◌, Result, ok,
  err, value_error, buffer_error,
}
use dpapi_ng.Bytes.{Bytes, to_bytes}
use dpapi_ng.Rpc.Enums.{
  PacketType, request, bind, alter_context, little_endian, ascii, ieee, context_result_code_value,
}
use dpapi_ng.Rpc.Pdu.{DataRep, PduHeader, SecTrailer}
use dpapi_ng.Rpc.Syntax.{ContextElement}
use dpapi_ng.Rpc.Stub.{Fault, Request, Response}
use dpapi_ng.Rpc.Bind.{Bind, BindAck, BindNak, padding4}
use dpapi_ng.Rpc.Packet.{
  Body, fault_pdu, request_pdu, response_pdu, bind_pdu, bind_ack_pdu, bind_nak_pdu,
  alter_context_pdu, alter_context_response_pdu, Pdu, pack, unpack,
}
use dpapi_ng.Rpc.Verification as Trailer
use dpapi_ng.Rpc.Verification.{Command, or_bit}
use dpapi_ng.Rpc.Action.{Action, after, ◌>>=◌, done, lift, raise}
use dpapi_ng.Rpc.Auth.{SpnegoContext, AuthenticationProvider, get_empty_trailer, wrap, unwrap}

-- self._auth and self._sign_header
pub record RpcClient (S : Type 0) : Type 0 where
  pub auth : Option (AuthenticationProvider S)
  pub sign_header : Bool

-- PacketFlags.PFC_SUPPORT_HEADER_SIGN
abbrev pub pfc_support_header_sign : ℕ
pfc_support_header_sign = 4

-- DataRep()
abbrev pub data_rep : DataRep
data_rep = record { byte_order = little_endian; character = ascii; floating_point = ieee }

unfoldable pub create_pdu_header : PacketType → ℕ → ℕ → ℕ → PduHeader
create_pdu_header packet_type auth_len call_id flags = record {
  version = 5;
  version_minor = 0;
  packet_type = packet_type;
  packet_flags = or_bit true 2 (or_bit true 1 flags);
  data_rep = data_rep;
  frag_len = 0;
  auth_len = auth_len;
  call_id = call_id;
}

abbrev bind_body : List ContextElement → Bind
bind_body contexts = record {
  max_xmit_frag = 5840;
  max_recv_frag = 5840;
  assoc_group = 0;
  contexts = contexts;
}

abbrev auth_len_of : Option SecTrailer → ℕ
auth_len_of none = 0
auth_len_of (some t) = length t.auth_value

abbrev pub is_some : {A : Type 0} → Option A → Bool
is_some none = false
is_some (some a) = true

-- -n % 16
abbrev pub padding16 : ℕ → ℕ
padding16 n = (16 - n % 16) % 16

-- An encrypted body's place in a packet.
abbrev pub Offsets : Type 0
Offsets = Option (ℕ × ℕ)

-- The stub data with the verification trailer behind it
unfoldable pub add_verification : Bytes → Option (List Command) → Result Bytes
add_verification stub_data none = ok stub_data
add_verification stub_data (some commands) = elim (Trailer.pack commands) [
  | err raised ↦ err raised
  | ok b_commands ↦ ok (stub_data ++ (replicate (padding4 (length stub_data)) 0 ++ b_commands))
]

unfoldable pub request_of : ℕ → ℕ → Bytes → Option SecTrailer → Pdu
request_of context_id opnum stub_data sec_trailer = record {
  header = create_pdu_header request (auth_len_of sec_trailer) 1 0;
  sec_trailer = sec_trailer;
  body = request_pdu (record {
    alloc_hint = length stub_data;
    context_id = context_id;
    opnum = opnum;
    obj = none;
    stub_data = stub_data;
  });
}

-- view[8:10] = len(b_pdu).to_bytes(2, …)
unfoldable pub set_frag_len : Bytes → Result Bytes
set_frag_len b_pdu = elim (to_bytes 2 (length b_pdu)) [
  | err raised ↦ err raised
  | ok frag_len ↦ ok (take 8 b_pdu ++ (frag_len ++ drop 10 b_pdu))
]

module _ {S : Type 0} where
  unfoldable pub create_bind :
      List ContextElement → Option SecTrailer → RpcClient S → RpcClient S × Pdu
  create_bind contexts sec_trailer client = (
    if is_some sec_trailer then record client { sign_header = true } else client,
    record {
      header =
          create_pdu_header bind (auth_len_of sec_trailer) 1
            (if is_some sec_trailer then pfc_support_header_sign else 0);
      sec_trailer = sec_trailer;
      body = bind_pdu (bind_body contexts);
    },
  )

  unfoldable pub create_alter_context : List ContextElement → SecTrailer → RpcClient S → Pdu
  create_alter_context contexts sec_trailer client = record {
    header =
        create_pdu_header alter_context (length sec_trailer.auth_value) 1
          (if client.sign_header then pfc_support_header_sign else 0);
    sec_trailer = some sec_trailer;
    body = alter_context_pdu (bind_body contexts);
  }

  -- A call on self._auth
  abbrev pub on_auth :
      {A : Type 0}
      → Action (AuthenticationProvider S) A
      → AuthenticationProvider S
      → Action (RpcClient S) A
  on_auth call auth client =
      let (auth', result) = call auth in (record client { auth = some auth' }, result)

module _ {S : Type 0} (spnego : SpnegoContext S) where
  unfoldable pub request_with :
      ℕ → ℕ → Bytes → Option (AuthenticationProvider S) → Action (RpcClient S) (Pdu × Offsets)
  request_with context_id opnum stub_data none =
      done (request_of context_id opnum stub_data none, none)
  request_with context_id opnum stub_data (some auth) =
      let pad_length = padding16 (length stub_data) in
      let padded = stub_data ++ replicate pad_length 0 in
      (do
        sec_trailer ← on_auth (get_empty_trailer spnego pad_length) auth
        done (request_of context_id opnum padded (some sec_trailer), some (24, 24 + length padded)))

  -- RpcClient._create_request
  unfoldable pub create_request :
      ℕ → ℕ → Bytes → Option (List Command) → Action (RpcClient S) (Pdu × Offsets)
  create_request context_id opnum stub_data verification_trailer client =
      (do
        stub_data' ← lift (add_verification stub_data verification_trailer)
        request_with context_id opnum stub_data' client.auth)
        client

  unfoldable pub seal :
      Option (AuthenticationProvider S) → Offsets → Bytes → Action (RpcClient S) Bytes
  seal none encrypt_offsets b_pdu client = done b_pdu client
  seal (some auth) none b_pdu client = done b_pdu client
  seal (some auth) (some (start, stop)) b_pdu client =
      on_auth
        (wrap spnego (slice 0 start b_pdu) (slice start stop b_pdu) (slice stop (stop + 8) b_pdu)
          client.sign_header)
        auth client

  -- RpcClient._prepare_pdu
  unfoldable pub prepare_pdu : Pdu → Offsets → Action (RpcClient S) Bytes
  prepare_pdu pdu encrypt_offsets client =
      (do
        packed ← lift (pack pdu)
        b_pdu ← lift (set_frag_len packed)
        seal client.auth encrypt_offsets b_pdu)
        client
