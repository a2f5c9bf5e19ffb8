-- ===== src/Tests/Verification.antt =====
-- The verification trailer at concrete inputs.
use dpapi_ng.Base.{◌≡◌, refl, arith, true, false, List, [], ◌∷◌, ◌++◌, ok, err, out_of_fuel, ◌>>=◌}
use dpapi_ng.Rpc.Syntax.RoundTrip.{syntax_layout}
use dpapi_ng.Rpc.Verification.{CommandFlags, Command, bitmask, pcontext, signature, pack, unpack}
use dpapi_ng.Rpc.Verification.RoundTrip.{
  IsCommand, value_layout, commands_layout, unpack-pack_trailer,
}
use dpapi_ng.Rpc.Verification.Endless.{unpack-endless}
use dpapi_ng.Tests.Packets.{syntax, syntax-fits}

abbrev no_flags : CommandFlags
no_flags = record { command_end = false; must_process = false }

abbrev last_flags : CommandFlags
last_flags = record { command_end = true; must_process = true }

abbrev bitmask_command : Command
bitmask_command = record { body = bitmask 1; flags = no_flags; value = 1 ∷ 0 ∷ 0 ∷ 0 ∷ [] }

abbrev pcontext_command : Command
pcontext_command = record {
  body = pcontext syntax syntax;
  flags = last_flags;
  value = value_layout (pcontext syntax syntax) [];
}

bitmask-IsCommand : IsCommand bitmask_command
bitmask-IsCommand = record { body = omega arith; value = refl; value_len = omega arith }

pcontext-IsCommand : IsCommand pcontext_command
unfolding syntax_layout
pcontext-IsCommand = record {
  body = (syntax-fits, syntax-fits);
  value = refl;
  value_len = omega arith;
}

abbrev commands : List Command
commands = bitmask_command ∷ pcontext_command ∷ []

unpack-pack_trailer_example : (pack commands >>= unpack 2) ≡ ok commands
unpack-pack_trailer_example =
    unpack-pack_trailer 2 commands (bitmask-IsCommand, (pcontext-IsCommand, tt)) (refl, refl)
      (omega arith)

unpack-endless_example :
    unpack 1000 (signature ++ commands_layout (bitmask_command ∷ [])) ≡ err out_of_fuel
unpack-endless_example =
    unpack-endless 1000 (bitmask_command ∷ []) (bitmask-IsCommand, tt) (refl, tt)
