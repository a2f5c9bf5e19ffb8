-- ===== src/Rpc/Verification/RoundTrip.antt =====
-- Command and VerificationTrailer of src/dpapi_ng/_rpc/_verification.py: the bytes of pack, read
-- by unpack.
use dpapi_ng.Base.{
  ℕ, zero, suc, ◌+◌, ◌/◌, ◌%◌, ◌^◌, ◌<◌, ◌≤◌, ◌≡◌, ◌≢◌, refl, sym, ap, ◌∙◌, arith, Bool, true,
  false, ◌==◌, List, [], ◌∷◌, ◌++◌, append-nil, map, length, drop, take-append, drop-append,
  drop-add, All, ok, ◌>>=◌,
}
use dpapi_ng.Bytes.{Bytes, join, le_bytes}
use dpapi_ng.Bytes.RoundTrip.{from_le-le_bytes, to_bytes-ok, to_bytes-byte}
use dpapi_ng.Rpc.Enums.{packet_type_value}
use dpapi_ng.Rpc.Enums.Members.{packet_type_of-value, packet_type_small}
use dpapi_ng.Rpc.Pdu.RoundTrip.{data_rep_layout, pack_data_rep-layout, unpack_data_rep-layout}
use dpapi_ng.Rpc.Syntax.{unpack_syntax}
use dpapi_ng.Rpc.Syntax.RoundTrip.{
  FitsSyntax, syntax_layout, pack_syntax-layout, unpack_syntax-layout, drop-syntax,
  map_result-layout,
}
use dpapi_ng.Rpc.Verification.{
  CommandFlags, CommandBody, bitmask, pcontext, header2, other, Command, command_value, or_bit,
  command_field, payload, pack_command, flags_of, unpack_bitmask, unpack_pcontext, unpack_header2,
  unpack_value, unpack_command, signature, pack, unpack_commands, unpack,
}

-- The value as it is written.
abbrev pub value_layout : CommandBody → Bytes → Bytes
value_layout (bitmask bits) value = le_bytes 4 bits
value_layout (pcontext interface_id transfer_syntax) value =
    syntax_layout interface_id ++ syntax_layout transfer_syntax
value_layout (header2 packet_type data_rep call_id context_id opnum) value =
    packet_type_value packet_type
    ∷ 0
    ∷ 0
    ∷ 0
    ∷ (data_rep_layout data_rep
        ++ (le_bytes 4 call_id ++ (le_bytes 2 context_id ++ le_bytes 2 opnum)))
value_layout (other number) value = value

-- Fields that fit; an unknown command has a number of 14 bits that no known one has.
abbrev pub FitsValue : CommandBody → Type 0
FitsValue (bitmask bits) = bits < 256 ^ 4
FitsValue (pcontext interface_id transfer_syntax) =
    FitsSyntax interface_id × FitsSyntax transfer_syntax
FitsValue (header2 packet_type data_rep call_id context_id opnum) =
    (call_id < 256 ^ 4) × (context_id < 256 ^ 2) × (opnum < 256 ^ 2)
FitsValue (other number) = (number < 0x4000) × (number ≢ 1) × (number ≢ 2) × (number ≢ 3)

-- A command as unpack makes it: its value is what it packs.
pub record IsCommand (c : Command) : Type 0 where
  pub body : FitsValue c.body
  pub value : value_layout c.body c.value ≡ c.value
  pub value_len : length c.value < 256 ^ 2

payload-layout :
    (b : CommandBody) (value : Bytes) → FitsValue b → payload b value ≡ ok (value_layout b value)
unfolding payload
payload-layout (bitmask bits) value h = to_bytes-ok 4 bits h
payload-layout (pcontext a b) value (ha, hb) = rw (pack_syntax-layout a ha, pack_syntax-layout b hb)
payload-layout (header2 t d call_id context_id opnum) value (h1, h2, h3) = rw (
  to_bytes-byte _ (packet_type_small t),
  pack_data_rep-layout d,
  to_bytes-ok 4 call_id h1,
  to_bytes-ok 2 context_id h2,
  to_bytes-ok 2 opnum h3,
)
payload-layout (other number) value h = refl

small_number : (b : CommandBody) → FitsValue b → command_value b < 0x4000
small_number (bitmask bits) h = omega arith
small_number (pcontext a b) h = omega arith
small_number (header2 a b c d e) h = omega arith
small_number (other number) h = h.0

-- The number and the flags share no bits.
bits_lem :
    (number : ℕ) (e m : Bool)
    → number < 0x4000
    → (or_bit m 0x8000 (or_bit e 0x4000 number) < 256 ^ 2)
      × (or_bit m 0x8000 (or_bit e 0x4000 number) % 0x4000 ≡ number)
      × ((or_bit m 0x8000 (or_bit e 0x4000 number) / 0x4000 % 2 == 1) ≡ e)
      × ((or_bit m 0x8000 (or_bit e 0x4000 number) / 0x8000 % 2 == 1) ≡ m)
bits_lem number true true h = (ground arith, ground arith, ground arith, ground arith)
bits_lem number true false h = (ground arith, ground arith, ground arith, ground arith)
bits_lem number false true h = (ground arith, ground arith, ground arith, ground arith)
bits_lem number false false h = (ground arith, ground arith, ground arith, ground arith)

flags-read :
    (number : ℕ) (flags : CommandFlags)
    → number < 0x4000
    → flags_of (command_field number flags) ≡ flags
flags-read number flags h =
    let (_, _, e, m) = bits_lem number flags.command_end flags.must_process h in
    λ i. record { command_end = e i; must_process = m i }

value-read :
    (b : CommandBody) (value : Bytes)
    → FitsValue b
    → unpack_value (command_value b) (value_layout b value) ≡ ok b
unfolding unpack_value unpack_bitmask unpack_pcontext unpack_header2
value-read (bitmask bits) value h = rw (from_le-le_bytes 4 bits h)
value-read (pcontext a b) value (ha, hb) =
    let second : unpack_syntax (syntax_layout b) ≡ ok b =
      rw append-nil at (unpack_syntax-layout b [] hb) in
    rw (unpack_syntax-layout a (syntax_layout b) ha, drop-syntax a (syntax_layout b), second)
value-read (header2 t d call_id context_id opnum) value (h1, h2, h3) = rw (
  packet_type_of-value t,
  unpack_data_rep-layout d,
  from_le-le_bytes 4 call_id h1,
  from_le-le_bytes 2 context_id h2,
  from_le-le_bytes 2 opnum h3,
)
value-read (other number) value (h, n1, n2, n3) = ground arith

pub command_layout : Command → Bytes
command_layout c =
    le_bytes 2 (command_field (command_value c.body) c.flags)
    ++ (le_bytes 2 (length c.value) ++ c.value)

pack_command-layout : (c : Command) → IsCommand c → pack_command c ≡ ok (command_layout c)
unfolding pack_command command_layout
pack_command-layout c h =
    let (field, _, _, _) =
      bits_lem (command_value c.body) c.flags.command_end c.flags.must_process
        (small_number c.body h.body) in
    rw (
      payload-layout c.body c.value h.body ∙ ap ok h.value,
      to_bytes-ok 2 _ field,
      to_bytes-ok 2 _ h.value_len,
      append-nil,
    )

read_value : (c : Command) → IsCommand c → unpack_value (command_value c.body) c.value ≡ ok c.body
read_value c h =
    ap (unpack_value (command_value c.body)) (sym h.value) ∙ value-read c.body c.value h.body

pub unpack_command-layout :
    (c : Command) (rest : Bytes) → IsCommand c → unpack_command (command_layout c ++ rest) ≡ ok c
unfolding unpack_command command_layout
unpack_command-layout c rest h =
    let small = small_number c.body h.body in
    let (field, number, _, _) =
      bits_lem (command_value c.body) c.flags.command_end c.flags.must_process small in
    rw (
      from_le-le_bytes 2 _ field,
      from_le-le_bytes 2 _ h.value_len,
      take-append c.value rest,
      number,
      flags-read (command_value c.body) c.flags small,
      read_value c h,
    )

drop-command :
    (c : Command) (rest : Bytes) → drop (4 + length c.value) (command_layout c ++ rest) ≡ rest
unfolding command_layout
drop-command c rest = rw (drop-add 4 (length c.value)) (drop-append c.value rest)

-- Only the last command has the END flag.
abbrev pub IsEnded : List Command → Type 0
IsEnded [] = ⊥
IsEnded (c ∷ []) = c.flags.command_end ≡ true
IsEnded (c ∷ d ∷ cs) = (c.flags.command_end ≡ false) × IsEnded (d ∷ cs)

unfoldable pub commands_layout : List Command → Bytes
commands_layout cs = join (map command_layout cs)

pub unpack_commands-step :
    (fuel : ℕ) (c : Command) (rest : Bytes)
    → IsCommand c
    → c.flags.command_end ≡ false
    → unpack_commands (suc fuel) (command_layout c ++ rest)
      ≡ (unpack_commands fuel rest >>= λ cs. ok (c ∷ cs))
unfolding unpack_commands
unpack_commands-step fuel c rest h more =
    rw (unpack_command-layout c rest h, drop-command c rest, more)

unpack_commands-last :
    (fuel : ℕ) (c : Command) (rest : Bytes)
    → IsCommand c
    → c.flags.command_end ≡ true
    → unpack_commands (suc fuel) (command_layout c ++ rest) ≡ ok (c ∷ [])
unfolding unpack_commands
unpack_commands-last fuel c rest h last = rw (unpack_command-layout c rest h, last)

unpack_commands-layout :
    (fuel : ℕ) (cs : List Command)
    → length cs ≤ fuel
    → All IsCommand cs
    → IsEnded cs
    → unpack_commands fuel (commands_layout cs) ≡ ok cs
unfolding commands_layout
unpack_commands-layout fuel [] le h e = absurd e
unpack_commands-layout zero (c ∷ cs) le h e = absurd (omega arith)
unpack_commands-layout (suc fuel) (c ∷ []) le (hc, _) e = unpack_commands-last fuel c [] hc e
unpack_commands-layout (suc fuel) (c ∷ d ∷ cs) le (hc, hs) (more, e) = rw (
  unpack_commands-step fuel c (join (map command_layout (d ∷ cs))) hc more,
  unpack_commands-layout fuel (d ∷ cs) (omega arith) hs e,
)

pack-layout :
    (cs : List Command) → All IsCommand cs → pack cs ≡ ok (signature ++ commands_layout cs)
unfolding pack commands_layout
pack-layout cs h =
    rw (
      map_result-layout IsCommand command_layout 0 pack_command pack_command-layout cs h,
      append-nil,
    )

-- A verification trailer whose commands are as unpack makes them (fields that fit, the value that
-- they pack), where the last command has the END flag and no other one has it, is packed without
-- an error, and unpack returns the same commands, with any fuel of at least one round for each
-- command.
pub unpack-pack_trailer :
    (fuel : ℕ) (commands : List Command)
    → All IsCommand commands
    → IsEnded commands
    → length commands ≤ fuel
    → (pack commands >>= unpack fuel) ≡ ok commands
unfolding unpack
unpack-pack_trailer fuel commands h e le =
    rw (pack-layout commands h) (unpack_commands-layout fuel commands le h e)
