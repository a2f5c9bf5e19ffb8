-- ===== src/Rpc/Auth.antt =====
-- class AuthenticationProvider of src/dpapi_ng/_rpc/_auth.py. The security context is one of the
-- package spnego, a parameter here.
use dpapi_ng.Base.{ℕ, ◌==◌, Bool, Option, [], ◌∷◌, replicate, or_else, if◌then◌else◌, ok}
use dpapi_ng.Bytes.{Bytes, join}
use dpapi_ng.Rpc.Enums.{SecurityProvider, level_pkt_privacy}
use dpapi_ng.Rpc.Pdu.{SecTrailer}
use dpapi_ng.Rpc.Action.{Action, ◌>>=◌, done}

-- What the provider uses of a context: step, complete, query_message_sizes().header, and wrap_iov and
-- unwrap_iov on the buffers that it passes, where the first argument tells whether header and
-- trailer are signed. wrap_iov gives the encrypted body and the signature.
pub record SpnegoContext (S : Type 0) : Type 0 where
  pub step : Option Bytes → Action S (Option Bytes)
  pub complete : S → Bool
  pub header_size : Action S ℕ
  pub wrap_iov : Bool → Bytes → Bytes → Bytes → Action S (Option Bytes × Option Bytes)
  pub unwrap_iov : Bool → Bytes → Bytes → Bytes → Bytes → Action S (Option Bytes)

pub record AuthenticationProvider (S : Type 0) : Type 0 where
  pub ctx : S
  pub provider : SecurityProvider
  pub header_length : ℕ

module _ {S : Type 0} (spnego : SpnegoContext S) where
  -- A call on self.ctx
  abbrev pub on_ctx : {A : Type 0} → Action S A → Action (AuthenticationProvider S) A
  on_ctx call p = let (ctx, result) = call p.ctx in (record p { ctx = ctx }, result)

  abbrev pub trailer : SecurityProvider → ℕ → Bytes → SecTrailer
  trailer provider pad_length auth_value = record {
    provider = provider;
    level = level_pkt_privacy;
    pad_length = pad_length;
    context_id = 0;
    auth_value = auth_value;
  }

  unfoldable pub step : Option Bytes → Action (AuthenticationProvider S) SecTrailer
  step in_token p =
      (do
        out_token ← on_ctx (spnego.step in_token)
        done (trailer p.provider 0 (or_else out_token [])))
        p

  -- self._header_length or …, which is stored
  unfoldable pub header_length_of : Action (AuthenticationProvider S) ℕ
  header_length_of p =
      if p.header_length == 0
      then (do n ← on_ctx spnego.header_size; λ q. (record q { header_length = n }, ok n)) p
      else done p.header_length p

  unfoldable pub get_empty_trailer : ℕ → Action (AuthenticationProvider S) SecTrailer
  get_empty_trailer pad_length p =
      (do
        header_length ← header_length_of
        done (trailer p.provider pad_length (replicate header_length 0)))
        p

  unfoldable pub wrap : Bytes → Bytes → Bytes → Bool → Action (AuthenticationProvider S) Bytes
  wrap header body b_trailer sign_header = do
    (encrypted, signature) ← on_ctx (spnego.wrap_iov sign_header header body b_trailer)
    done (join (header ∷ or_else encrypted [] ∷ b_trailer ∷ or_else signature [] ∷ []))

  unfoldable pub unwrap :
      Bytes → Bytes → Bytes → Bytes → Bool → Action (AuthenticationProvider S) Bytes
  unwrap header body b_trailer signature sign_header = do
    decrypted ← on_ctx (spnego.unwrap_iov sign_header header body b_trailer signature)
    done (or_else decrypted [])
