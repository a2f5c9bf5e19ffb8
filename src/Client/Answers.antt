-- ===== src/Client/Answers.antt =====
-- The contexts and calls of src/dpapi_ng/_client.py, and what it takes from the answers of a domain
-- controller.
pub mod Port
use dpapi_ng.Base.{
  ℕ, zero, suc, ◌-◌, ◌*◌, ◌^◌, ◌==◌, Bool, true, false, ◌||◌, Option, none, some, List, [], ◌∷◌,
  length, take_less, index, if◌then◌else◌, Result, ok, err, ◌>>=◌, value_error,
}
use dpapi_ng.Bytes.{Bytes}
use dpapi_ng.Bytes.Uuid.{Uuid}
use dpapi_ng.Rpc.Enums.{ContextResultCode, context_result_code_value}
use dpapi_ng.Rpc.Syntax.{SyntaxId, ContextElement, ContextResult}
use dpapi_ng.Rpc.Bind.{BindAck}
use dpapi_ng.Rpc.Pdu.{SecTrailer}
use dpapi_ng.Rpc.Stub.{Response}
use dpapi_ng.Rpc.Verification.{Command, pcontext}
use dpapi_ng.Epm.Floor.{Floor, FloorKind, plain_floor, tcp_floor, ip_floor, rpc_floor, uuid_floor}
use dpapi_ng.Epm.Tower.{build_tcpip_tower}
use dpapi_ng.Epm.Map.{EptMap, EptMapResult, unpack_ept_map_result}
use dpapi_ng.Gkdi.Envelope.{GroupKeyEnvelope}
use dpapi_ng.Gkdi.GetKey.{unpack_response}

abbrev pub syntax_id : ℕ → ℕ → ℕ → ℕ → ℕ → SyntaxId
syntax_id time_low time_mid time_hi node version = record {
  uuid = record { time_low = time_low; time_mid = time_mid; time_hi = time_hi; node = node };
  version = version;
  version_minor = 0;
}

-- e1af8308-5d1f-11c9-91a4-08002b14a0fa, of which version 3
abbrev pub epm : SyntaxId
epm = syntax_id 0xe1af8308 0x5d1f 0x11c9 0x91a408002b14a0fa 3

-- b9785960-524f-11df-8b6d-83dcded72085
abbrev pub isd_key : SyntaxId
isd_key = syntax_id 0xb9785960 0x524f 0x11df 0x8b6d83dcded72085 1

-- 8a885d04-1ceb-11c9-9fe8-08002b104860
abbrev pub ndr : SyntaxId
ndr = syntax_id 0x8a885d04 0x1ceb 0x11c9 0x9fe808002b104860 2

-- 71710533-beba-4937-8319-b5dbef9ccc36
abbrev pub ndr64 : SyntaxId
ndr64 = syntax_id 0x71710533 0xbeba 0x4937 0x8319b5dbef9ccc36 1

-- The flags are the first of the last eight bytes.
abbrev pub bind_time_feature_negotiation : ℕ → SyntaxId
bind_time_feature_negotiation flags = syntax_id 0x6CB71C2C 0x9812 0x4540 (flags * 256 ^ 7) 1

abbrev pub epm_contexts : List ContextElement
epm_contexts = record { context_id = 0; abstract_syntax = epm; transfer_syntaxes = ndr64 ∷ [] } ∷ []

abbrev pub isd_key_contexts : List ContextElement
isd_key_contexts =
    record { context_id = 0; abstract_syntax = isd_key; transfer_syntaxes = ndr64 ∷ [] }
    ∷ record {
      context_id = 1;
      abstract_syntax = isd_key;
      transfer_syntaxes = bind_time_feature_negotiation 0 ∷ [];
    }
    ∷ []

abbrev pub ept_map_isd_key : EptMap
ept_map_isd_key = record {
  obj = none;
  tower = build_tcpip_tower isd_key ndr 135 0;
  entry_handle = none;
  max_towers = 4;
}

-- c.result == ContextResultCode.ACCEPTANCE
abbrev is_accepted : ContextResult → Bool
is_accepted r = context_result_code_value r.result == 0

-- accepted_ids, from idx on
unfoldable pub accepted_ids : List ContextElement → ℕ → List ContextResult → Result (List ℕ)
accepted_ids requested_contexts idx [] = ok []
accepted_ids requested_contexts idx (r ∷ results) =
    let rest = accepted_ids requested_contexts (suc idx) results in
    if is_accepted r
    then (do ctx ← index idx requested_contexts; ids ← rest; ok (ctx.context_id ∷ ids))
    else rest

abbrev pub contains : ℕ → List ℕ → Bool
contains n [] = false
contains n (m ∷ ms) = n == m || contains n ms

unfoldable pub process_bind_result : List ContextElement → BindAck → ℕ → Result {0} Unit
process_bind_result requested_contexts bind_ack desired_context = do
  ids ← accepted_ids requested_contexts 0 bind_ack.results
  (if contains desired_context ids then ok tt else err value_error)

-- isinstance(floor, TCPFloor)
abbrev pub tcp_port : FloorKind → Option ℕ
tcp_port (plain_floor protocol) = none
tcp_port (tcp_floor port) = some port
tcp_port (ip_floor addr) = none
tcp_port (rpc_floor version_minor) = none
tcp_port (uuid_floor uuid version version_minor) = none

abbrev pub or_next : Option ℕ → Option ℕ → Option ℕ
or_next none next = next
or_next (some port) next = some port

unfoldable pub port_in : List Floor → Option ℕ
port_in [] = none
port_in (floor ∷ tower) = or_next (tcp_port floor.kind) (port_in tower)

unfoldable pub first_port : List (List Floor) → Option ℕ
first_port [] = none
first_port (tower ∷ towers) = or_next (port_in tower) (first_port towers)

abbrev pub port_or_error : Option ℕ → Result ℕ
port_or_error none = err value_error
port_or_error (some port) = ok port

unfoldable pub process_ept_map_result : Response → Result ℕ
process_ept_map_result response = do
  map_response ← unpack_ept_map_result response.stub_data
  (if map_response.status == 0
      then port_or_error (first_port map_response.towers)
      else err value_error)

-- pad_length of the trailer, where there is one
abbrev pub trailer_padding : Option SecTrailer → ℕ
trailer_padding none = 0
trailer_padding (some t) = t.pad_length

-- The length less the padding may be negative, and then the slice ends there from the end.
unfoldable pub process_get_key_result : Response → Option SecTrailer → Result GroupKeyEnvelope
process_get_key_result response sec_trailer =
    unpack_response
      (take_less (length response.stub_data) (trailer_padding sec_trailer) response.stub_data)
