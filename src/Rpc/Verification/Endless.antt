-- ===== src/Rpc/Verification/Endless.antt =====
-- The loop of VerificationTrailer.unpack in src/dpapi_ng/_rpc/_verification.py on commands
-- without the END flag.
use dpapi_ng.Base.{ℕ, zero, suc, ◌≡◌, refl, false, List, [], ◌∷◌, ◌++◌, map, All, err, out_of_fuel}
use dpapi_ng.Bytes.{join, from_le}
use dpapi_ng.Rpc.Verification.{
  Command, signature, unpack_command, unpack_value, unpack_commands, unpack,
}
use dpapi_ng.Rpc.Verification.RoundTrip.{
  IsCommand, command_layout, commands_layout, unpack_commands-step,
}

-- From an empty view the loop reads a command of number 0 without flags, and has an empty view again.
unpack_commands-empty : (fuel : ℕ) → unpack_commands fuel [] ≡ err out_of_fuel
unfolding unpack_commands unpack_command unpack_value from_le
unpack_commands-empty zero = refl
unpack_commands-empty (suc fuel) = rw (unpack_commands-empty fuel)

abbrev pub NotEnded : List Command → Type 0
NotEnded cs = All (λ c. c.flags.command_end ≡ false) cs

endless :
    (fuel : ℕ) (cs : List Command)
    → All IsCommand cs
    → NotEnded cs
    → unpack_commands fuel (commands_layout cs) ≡ err out_of_fuel
unfolding commands_layout
endless fuel [] h n = unpack_commands-empty fuel
endless zero (c ∷ cs) h n = unfold unpack_commands in refl
endless (suc fuel) (c ∷ cs) (hc, hs) (more, n) =
    rw (unpack_commands-step fuel c (join (map command_layout cs)) hc more, endless fuel cs hs n)

-- On the signature and packed commands none of which has the END flag, no amount of fuel is
-- enough for the loop of VerificationTrailer.unpack.
pub unpack-endless :
    (fuel : ℕ) (commands : List Command)
    → All IsCommand commands
    → NotEnded commands
    → unpack fuel (signature ++ commands_layout commands) ≡ err out_of_fuel
unfolding unpack
unpack-endless fuel commands h n = endless fuel commands h n
