-- ===== src/Rpc/Syntax/RoundTrip.antt =====
-- SyntaxId, ContextElement and ContextResult of src/dpapi_ng/_rpc/_bind.py: the bytes of pack,
-- read by unpack.
use dpapi_ng.Base.{
  ℕ, ◌+◌, ◌*◌, ◌^◌, ◌<◌, ◌≡◌, refl, arith, List, [], ◌∷◌, ◌++◌, append-nil, append_assoc, length,
  drop, map_result, map, Result, ok, All,
}
use dpapi_ng.Bytes.{Bytes, join, le_bytes}
use dpapi_ng.Bytes.RoundTrip.{from_le-le_bytes, to_bytes-ok}
use dpapi_ng.Bytes.Uuid.{IsUuid, bytes_le, uuid_from_bytes_le-bytes_le}
use dpapi_ng.Rpc.Enums.{context_result_code_value}
use dpapi_ng.Rpc.Enums.Members.{context_result_code_of-value, context_result_code_small}
use dpapi_ng.Rpc.Syntax.{
  SyntaxId, pack_syntax, unpack_syntax, unpack_parts, ContextElement, pack_context, unpack_context,
  ContextResult, pack_result, unpack_result,
}

pub record FitsSyntax (s : SyntaxId) : Type 0 where
  pub uuid : IsUuid s.uuid
  pub version : s.version < 256 ^ 2
  pub version_minor : s.version_minor < 256 ^ 2

unfoldable pub syntax_layout : SyntaxId → Bytes
syntax_layout s = bytes_le s.uuid ++ (le_bytes 2 s.version ++ le_bytes 2 s.version_minor)

pub pack_syntax-layout : (s : SyntaxId) → FitsSyntax s → pack_syntax s ≡ ok (syntax_layout s)
unfolding pack_syntax syntax_layout
pack_syntax-layout s f =
    rw (to_bytes-ok 2 s.version f.version, to_bytes-ok 2 s.version_minor f.version_minor)

pub unpack_syntax-layout :
    (s : SyntaxId) (rest : Bytes) → FitsSyntax s → unpack_syntax (syntax_layout s ++ rest) ≡ ok s
unfolding unpack_syntax syntax_layout
unpack_syntax-layout s rest f = rw (
  uuid_from_bytes_le-bytes_le s.uuid f.uuid,
  from_le-le_bytes 2 s.version f.version,
  from_le-le_bytes 2 s.version_minor f.version_minor,
)

-- A list of parts of one width: the reader and the writer agree on each of them.
module _ {A : Type 0} (Fits : A → Type 0) (layout : A → Bytes) (width : ℕ) where
  pub map_result-layout :
      (pack : A → Result Bytes)
      → ((a : A) → Fits a → pack a ≡ ok (layout a))
      → (xs : List A) → All Fits xs
      → map_result pack xs ≡ ok (map layout xs)
  map_result-layout pack one [] h = refl
  map_result-layout pack one (x ∷ xs) (hx, hs) = rw (one x hx, map_result-layout pack one xs hs)

  pub unpack_parts-layout :
      (unpack : Bytes → Result A)
      → ((a : A) (rest : Bytes) → Fits a → unpack (layout a ++ rest) ≡ ok a)
      → ((a : A) (rest : Bytes) → drop width (layout a ++ rest) ≡ rest)
      → (xs : List A) (rest : Bytes) → All Fits xs
      → unpack_parts unpack width (length xs) (join (map layout xs) ++ rest) ≡ ok xs
  unfolding unpack_parts
  unpack_parts-layout unpack one wide [] rest h = refl
  unpack_parts-layout unpack one wide (x ∷ xs) rest (hx, hs) = rw (
    append_assoc (layout x) (join (map layout xs)) rest,
    one x _ hx,
    wide x _,
    unpack_parts-layout unpack one wide xs rest hs,
  )

pub drop-syntax : (s : SyntaxId) (rest : Bytes) → drop 20 (syntax_layout s ++ rest) ≡ rest
unfolding syntax_layout
drop-syntax s rest = refl

pub record FitsContext (c : ContextElement) : Type 0 where
  pub context_id : c.context_id < 256 ^ 2
  pub num_transfers : length c.transfer_syntaxes < 256 ^ 2
  pub abstract_syntax : FitsSyntax c.abstract_syntax
  pub transfer_syntaxes : All FitsSyntax c.transfer_syntaxes

unfoldable pub context_layout : ContextElement → Bytes
context_layout c =
    le_bytes 2 c.context_id
    ++ (le_bytes 2 (length c.transfer_syntaxes)
        ++ (syntax_layout c.abstract_syntax ++ join (map syntax_layout c.transfer_syntaxes)))

pub pack_context-layout :
    (c : ContextElement) → FitsContext c → pack_context c ≡ ok (context_layout c)
unfolding pack_context context_layout
pack_context-layout c f = rw (
  to_bytes-ok 2 c.context_id f.context_id,
  to_bytes-ok 2 _ f.num_transfers,
  pack_syntax-layout c.abstract_syntax f.abstract_syntax,
  map_result-layout FitsSyntax syntax_layout 20 pack_syntax pack_syntax-layout c.transfer_syntaxes
      f.transfer_syntaxes,
  append-nil,
)

pub unpack_context-layout :
    (c : ContextElement) (rest : Bytes)
    → FitsContext c
    → unpack_context (context_layout c ++ rest) ≡ ok c
unfolding unpack_context context_layout
unpack_context-layout c rest f = rw (
  append_assoc (syntax_layout c.abstract_syntax) _ rest,
  unpack_syntax-layout c.abstract_syntax _ f.abstract_syntax,
  from_le-le_bytes 2 c.context_id f.context_id,
  from_le-le_bytes 2 _ f.num_transfers,
  drop-syntax c.abstract_syntax _,
  unpack_parts-layout FitsSyntax syntax_layout 20 unpack_syntax unpack_syntax-layout drop-syntax
      c.transfer_syntaxes rest f.transfer_syntaxes,
)

pub record FitsResult (r : ContextResult) : Type 0 where
  pub reason : r.reason < 256 ^ 2
  pub syntax : IsUuid r.syntax
  pub syntax_version : r.syntax_version < 256 ^ 4

pub result_layout : ContextResult → Bytes
result_layout r =
    le_bytes 2 (context_result_code_value r.result)
    ++ (le_bytes 2 r.reason ++ (bytes_le r.syntax ++ le_bytes 4 r.syntax_version))

pub pack_result-layout : (r : ContextResult) → FitsResult r → pack_result r ≡ ok (result_layout r)
unfolding pack_result result_layout
pack_result-layout r f =
    let small = context_result_code_small r.result in
    let code : context_result_code_value r.result < 256 ^ 2 = omega arith in
    rw (
      to_bytes-ok 2 _ code,
      to_bytes-ok 2 r.reason f.reason,
      to_bytes-ok 4 r.syntax_version f.syntax_version,
    )

pub unpack_result-layout :
    (r : ContextResult) (rest : Bytes)
    → FitsResult r
    → unpack_result (result_layout r ++ rest) ≡ ok r
unfolding unpack_result result_layout
unpack_result-layout r rest f =
    let small = context_result_code_small r.result in
    let code : context_result_code_value r.result < 256 ^ 2 = omega arith in
    rw (
      from_le-le_bytes 2 _ code,
      context_result_code_of-value r.result,
      uuid_from_bytes_le-bytes_le r.syntax f.syntax,
      from_le-le_bytes 2 r.reason f.reason,
      from_le-le_bytes 4 r.syntax_version f.syntax_version,
    )

pub drop-result : (r : ContextResult) (rest : Bytes) → drop 24 (result_layout r ++ rest) ≡ rest
unfolding result_layout
drop-result r rest = refl

length-syntaxes : (xs : List SyntaxId) → length (join (map syntax_layout xs)) ≡ length xs * 20
unfolding syntax_layout
length-syntaxes [] = omega arith
length-syntaxes (x ∷ xs) = omega (arith, length-syntaxes xs)

pub length-context_layout :
    (c : ContextElement) → length (context_layout c) ≡ 24 + length c.transfer_syntaxes * 20
unfolding context_layout syntax_layout
length-context_layout c = omega (arith, length-syntaxes c.transfer_syntaxes)
