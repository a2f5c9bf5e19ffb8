-- ===== src/Rpc/Verification.antt =====
-- src/dpapi_ng/_rpc/_verification.py: the verification trailer of a request and its commands.
pub mod RoundTrip
pub mod Endless
use dpapi_ng.Base.{
  ℕ, zero, suc, ◌+◌, ◌/◌, ◌%◌, Bool, true, false, not, ◌==◌, List, [], ◌∷◌, ◌++◌, length, slice,
  take, drop, index, bytes_eq, map_result, if◌then◌else◌, Result, ok, err, value_error, out_of_fuel,
  ◌>>=◌,
}
use dpapi_ng.Bytes.{Bytes, join, from_le, to_bytes}
use dpapi_ng.Rpc.Enums.{PacketType, packet_type_value, packet_type_of}
use dpapi_ng.Rpc.Pdu.{DataRep, pack_data_rep, unpack_data_rep}
use dpapi_ng.Rpc.Syntax.{SyntaxId, pack_syntax, unpack_syntax}

-- class CommandFlags: SEC_VT_COMMAND_END and SEC_VT_MUST_PROCESS_COMMAND
pub record CommandFlags : Type 0 where
  pub command_end : Bool
  pub must_process : Bool

-- The subclasses of Command, and a command that is none of them with its number (the members that
-- CommandType makes for unknown values).
pub data CommandBody : Type 0 where
  bitmask : ℕ → CommandBody
  pcontext : SyntaxId → SyntaxId → CommandBody
  header2 : PacketType → DataRep → ℕ → ℕ → ℕ → CommandBody
  other : ℕ → CommandBody

-- `value` is what unpack read; a known command does not pack it.
pub record Command : Type 0 where
  pub body : CommandBody
  pub flags : CommandFlags
  pub value : Bytes

abbrev pub command_value : CommandBody → ℕ
command_value (bitmask bits) = 1
command_value (pcontext interface_id transfer_syntax) = 2
command_value (header2 packet_type data_rep call_id context_id opnum) = 3
command_value (other number) = number

-- number | bit, for a bit that is a power of 2
abbrev pub or_bit : Bool → ℕ → ℕ → ℕ
or_bit set bit number =
    if set then (if number / bit % 2 == 1 then number else number + bit) else number

-- command.value | flags.value
abbrev pub command_field : ℕ → CommandFlags → ℕ
command_field number flags =
    or_bit flags.must_process 0x8000 (or_bit flags.command_end 0x4000 number)

-- The value that a command packs.
unfoldable pub payload : CommandBody → Bytes → Result Bytes
payload (bitmask bits) value = to_bytes 4 bits
payload (pcontext interface_id transfer_syntax) value = do
  b_interface ← pack_syntax interface_id
  b_transfer ← pack_syntax transfer_syntax
  ok (b_interface ++ b_transfer)
payload (header2 packet_type data_rep call_id context_id opnum) value = do
  b_packet_type ← to_bytes 1 (packet_type_value packet_type)
  b_data_rep ← pack_data_rep data_rep
  b_call_id ← to_bytes 4 call_id
  b_context_id ← to_bytes 2 context_id
  b_opnum ← to_bytes 2 opnum
  ok (
      join
        (b_packet_type ∷ (0 ∷ 0 ∷ 0 ∷ []) ∷ b_data_rep ∷ b_call_id ∷ b_context_id ∷ b_opnum ∷ []))
payload (other number) value = ok value

-- Command.pack, and those of its subclasses
unfoldable pub pack_command : Command → Result Bytes
pack_command c = do
  value ← payload c.body c.value
  b_field ← to_bytes 2 (command_field (command_value c.body) c.flags)
  b_length ← to_bytes 2 (length value)
  ok (join (b_field ∷ b_length ∷ value ∷ []))

-- CommandFlags(cmd_field & 0xC000)
abbrev pub flags_of : ℕ → CommandFlags
flags_of field = record {
  command_end = field / 0x4000 % 2 == 1;
  must_process = field / 0x8000 % 2 == 1;
}

-- The readers of the registry
unfoldable pub unpack_bitmask : Bytes → Result CommandBody
unpack_bitmask value = ok (bitmask (from_le value))

unfoldable pub unpack_pcontext : Bytes → Result CommandBody
unpack_pcontext value = do
  interface_id ← unpack_syntax value
  transfer_syntax ← unpack_syntax (drop 20 value)
  ok (pcontext interface_id transfer_syntax)

unfoldable pub unpack_header2 : Bytes → Result CommandBody
unpack_header2 value = do
  b_packet_type ← index 0 value
  packet_type ← packet_type_of b_packet_type
  data_rep ← unpack_data_rep (slice 4 8 value)
  ok (
      header2 packet_type data_rep (from_le (slice 8 12 value)) (from_le (slice 12 14 value))
        (from_le (slice 14 16 value)))

-- _COMMAND_TYPE_REGISTRY.get(command_type, None) and what follows it
unfoldable pub unpack_value : ℕ → Bytes → Result CommandBody
unpack_value number value =
    if number == 1
    then unpack_bitmask value
    else if number == 2
    then unpack_pcontext value
    else if number == 3
    then unpack_header2 value
    else ok (other number)

-- Command.unpack
unfoldable pub unpack_command : Bytes → Result Command
unpack_command view = do
  let cmd_field = from_le (slice 0 2 view)
  let command_length = from_le (slice 2 4 view)
  let value = take command_length (drop 4 view)
  body ← unpack_value (cmd_field % 0x4000) value
  ok (record { body = body; flags = flags_of cmd_field; value = value })

abbrev pub signature : Bytes
signature = 0x8a ∷ 0xe3 ∷ 0x13 ∷ 0x71 ∷ 0x02 ∷ 0xf4 ∷ 0x36 ∷ 0x71 ∷ []

-- VerificationTrailer.pack
unfoldable pub pack : List Command → Result Bytes
pack commands = do
  b_commands ← map_result pack_command commands
  ok (join (signature ∷ join b_commands ∷ []))

-- while True: up to a command with the END flag
unfoldable pub unpack_commands : ℕ → Bytes → Result (List Command)
unpack_commands zero view = err out_of_fuel
unpack_commands (suc fuel) view = do
  cmd ← unpack_command view
  let rest = unpack_commands fuel (drop (4 + length cmd.value) view)
  if cmd.flags.command_end then ok (cmd ∷ []) else (do commands ← rest; ok (cmd ∷ commands))

-- VerificationTrailer.unpack, on fuel for the loop
unfoldable pub unpack : ℕ → Bytes → Result (List Command)
unpack fuel view =
    if not (bytes_eq (slice 0 8 view) signature)
    then err value_error
    else unpack_commands fuel (drop 8 view)
