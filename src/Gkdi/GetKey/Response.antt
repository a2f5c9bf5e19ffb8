-- ===== src/Gkdi/GetKey/Response.antt =====
-- GetKey.unpack_response of src/dpapi_ng/_gkdi.py on the answers of the server.
use dpapi_ng.Base.{
  ℕ, ◌+◌, ◌-◌, ◌^◌, ◌<◌, ◌≡◌, arith, ◌++◌, length, replicate, take_last, drop_last, take-append,
  if◌then◌else◌, ◌==◌, err, value_error, Bool-cases, inl, inr, take_last-append, drop_last-append,
}
use dpapi_ng.Bytes.{Bytes, le_bytes}
use dpapi_ng.Bytes.RoundTrip.{from_le-le_bytes}
use dpapi_ng.Gkdi.Envelope.Pack as Envelope
use dpapi_ng.Gkdi.GetKey.{referent, unpack_response}

-- The answer of the server as NDR64 lays it out, up to the HRESULT: the size, the pointer to the
-- envelope with its length again, the envelope, and padding.
abbrev answer : Bytes → Bytes → Bytes
answer envelope padding =
    le_bytes 4 (length envelope)
    ++ (replicate 4 0 ++ (referent ++ (le_bytes 8 (length envelope) ++ (envelope ++ padding))))

unfoldable pub response : Bytes → Bytes → ℕ → Bytes
response envelope padding hresult = answer envelope padding ++ le_bytes 4 hresult

-- For an envelope shorter than 4 GiB, whatever the padding is: an answer with HRESULT 0 is read
-- as GroupKeyEnvelope.unpack reads the envelope in it, and any other 32-bit HRESULT is a
-- ValueError.
pub unpack_response-response :
    (envelope padding : Bytes) (hresult : ℕ)
    → length envelope < 256 ^ 4
    → hresult < 256 ^ 4
    → unpack_response (response envelope padding hresult)
      ≡ (if hresult == 0 then Envelope.unpack envelope else err value_error)
unfolding unpack_response response
unpack_response-response envelope padding hresult h h' =
    let n = length envelope in
    let last : take_last 4 (response envelope padding hresult) ≡ le_bytes 4 hresult =
      take_last-append (answer envelope padding) (le_bytes 4 hresult) in
    let front : drop_last 4 (response envelope padding hresult) ≡ answer envelope padding =
      drop_last-append (answer envelope padding) (le_bytes 4 hresult) in
    let e : 16 + n - 16 ≡ n = omega arith in
    rw
      (
        last,
        front,
        from_le-le_bytes 4 hresult h',
        from_le-le_bytes 4 n h,
        e,
        take-append envelope padding,
      )
      (elim (Bool-cases (hresult == 0)) [
        | inl zero_result ↦ rw zero_result
        | inr failed ↦ rw failed
      ])
