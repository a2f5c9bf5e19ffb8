-- ===== src/Tests/Packets.antt =====
-- The packets at concrete inputs.
use dpapi_ng.Base.{◌≡◌, refl, arith, some, [], ◌∷◌, ok, ◌>>=◌}
use dpapi_ng.Rpc.Enums.{bind, little_endian, ascii, ieee, authn_gss_negotiate, level_pkt_privacy}
use dpapi_ng.Rpc.Syntax.{SyntaxId}
use dpapi_ng.Rpc.Syntax.RoundTrip.{FitsSyntax, syntax_layout, context_layout}
use dpapi_ng.Rpc.Pdu.RoundTrip.{trailer_layout}
use dpapi_ng.Rpc.Bind.RoundTrip.{bind_layout}
use dpapi_ng.Rpc.Packet.{Pdu, bind_pdu, pack, unpack}
use dpapi_ng.Rpc.Packet.RoundTrip.{IsValid, unpack-pack_pdu}
use dpapi_ng.Tests.Data.{root_id, root_id-IsUuid}

abbrev pub syntax : SyntaxId
syntax = record { uuid = root_id; version = 1; version_minor = 0 }

pub syntax-fits : FitsSyntax syntax
syntax-fits = record { uuid = root_id-IsUuid; version = omega arith; version_minor = omega arith }

abbrev packet : Pdu
packet = record {
  header = record {
    version = 5;
    version_minor = 0;
    packet_type = bind;
    packet_flags = 7;
    data_rep = record { byte_order = little_endian; character = ascii; floating_point = ieee };
    frag_len = 82;
    auth_len = 2;
    call_id = 1;
  };
  sec_trailer = some (record {
    provider = authn_gss_negotiate;
    level = level_pkt_privacy;
    pad_length = 0;
    context_id = 0;
    auth_value = 9 ∷ 8 ∷ [];
  });
  body = bind_pdu (record {
    max_xmit_frag = 5840;
    max_recv_frag = 5840;
    assoc_group = 0;
    contexts =
        record { context_id = 0; abstract_syntax = syntax; transfer_syntaxes = syntax ∷ [] } ∷ [];
  });
}

packet-IsValid : IsValid packet
unfolding bind_layout context_layout syntax_layout trailer_layout
packet-IsValid = record {
  header = record {
    version = omega arith;
    version_minor = omega arith;
    packet_flags = omega arith;
    frag_len = omega arith;
    auth_len = omega arith;
    call_id = omega arith;
  };
  packet_type = refl;
  body = record {
    max_xmit_frag = omega arith;
    max_recv_frag = omega arith;
    assoc_group = omega arith;
    num_contexts = omega arith;
    contexts = (
      record {
        context_id = omega arith;
        num_transfers = omega arith;
        abstract_syntax = syntax-fits;
        transfer_syntaxes = (syntax-fits, tt);
      },
      tt,
    );
  };
  auth = (record { pad_length = omega arith; context_id = omega arith }, refl, omega arith);
  trailer = refl;
  frag_len = refl;
}

unpack-pack_pdu_example : (pack packet >>= unpack) ≡ ok packet
unpack-pack_pdu_example = unpack-pack_pdu packet packet-IsValid
