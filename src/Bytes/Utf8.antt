-- ===== src/Bytes/Utf8.antt =====
-- str.encode("utf-8") and bytes.decode("utf-8") of the standard library.
use dpapi_ng.Base.{
  ℕ, zero, suc, ◌+◌, ◌-◌, ◌*◌, ◌/◌, ◌%◌, ◌<◌, ◌≤◌, ◌≡◌, refl, arith, Bool, true, false, not, ◌&&◌,
  inl, inr, Bool-cases, [], ◌∷◌, ◌++◌, leb, ltb, if◌then◌else◌, All, Result, ok, err, unicode_error,
  ◌>>=◌,
}
use dpapi_ng.Bytes.{Bytes}
use dpapi_ng.Bytes.Text.{Text, is_surrogate, IsChar}

-- The bytes of one code point.
abbrev pub utf8_char : ℕ → Bytes
utf8_char c =
    if ltb c 0x80
    then c ∷ []
    else if ltb c 0x800
    then (0xc0 + c / 64) ∷ (0x80 + c % 64) ∷ []
    else if ltb c 0x10000
    then (0xe0 + c / 4096) ∷ (0x80 + c / 64 % 64) ∷ (0x80 + c % 64) ∷ []
    else (0xf0 + c / 262144) ∷ (0x80 + c / 4096 % 64) ∷ (0x80 + c / 64 % 64) ∷ (0x80 + c % 64) ∷ []

abbrev pub utf8_bytes : Text → Bytes
utf8_bytes [] = []
utf8_bytes (c ∷ s) = utf8_char c ++ utf8_bytes s

unfoldable pub encode_utf8 : Text → Result Bytes
encode_utf8 [] = ok []
encode_utf8 (c ∷ s) =
    let rest = encode_utf8 s in
    if is_surrogate c then err unicode_error else do bs ← rest; ok (utf8_char c ++ bs)

-- A decoded code point: not below the least one of its length, encodable, and in range.
abbrev valid_char : ℕ → ℕ → Bool
valid_char least c = leb least c && (not (is_surrogate c) && ltb c 0x110000)

abbrev is_continuation : ℕ → Bool
is_continuation b = leb 0x80 b && ltb b 0xc0

-- Within a code point: `need` more bytes are wanted, `acc` is the value so far and `least` the
-- least value of this length.
unfoldable pub decode_utf8_from : ℕ → ℕ → ℕ → Bytes → Result Text
decode_utf8_from zero acc least [] = ok []
decode_utf8_from (suc need) acc least [] = err unicode_error
decode_utf8_from zero acc least (b ∷ bs) =
    let plain = decode_utf8_from 0 0 0 bs in
    let two = decode_utf8_from 1 (b - 0xc0) 0x80 bs in
    let three = decode_utf8_from 2 (b - 0xe0) 0x800 bs in
    let four = decode_utf8_from 3 (b - 0xf0) 0x10000 bs in
    if ltb b 0x80
    then (do s ← plain; ok (b ∷ s))
    else if ltb b 0xc0
    then err unicode_error
    else if ltb b 0xe0
    then two
    else if ltb b 0xf0
    then three
    else if ltb b 0xf8
    then four
    else err unicode_error
decode_utf8_from (suc need) acc least (b ∷ bs) =
    let c = acc * 64 + (b - 0x80) in
    let more = decode_utf8_from need c least bs in
    let done = decode_utf8_from 0 0 0 bs in
    if not (is_continuation b) then err unicode_error else elim need [
      | zero ↦ if valid_char least c then (do s ← done; ok (c ∷ s)) else err unicode_error
      | suc n ↦ more
    ]

abbrev pub decode_utf8 : Bytes → Result Text
decode_utf8 bs = decode_utf8_from 0 0 0 bs

pub encode_utf8-ok : (s : Text) → All IsChar s → encode_utf8 s ≡ ok (utf8_bytes s)
unfolding encode_utf8
encode_utf8-ok [] h = refl
encode_utf8-ok (c ∷ s) (hc, hs) = rw (hc.plain, encode_utf8-ok s hs)

more_byte :
    (n acc least r : ℕ) (bs : Bytes)
    → r < 64
    → decode_utf8_from (suc (suc n)) acc least ((0x80 + r) ∷ bs)
      ≡ decode_utf8_from (suc n) (acc * 64 + r) least bs
unfolding decode_utf8_from
more_byte n acc least r bs h =
    let k : is_continuation (0x80 + r) ≡ true = ground arith in
    let e : 0x80 + r - 0x80 ≡ r = omega arith in rw (k, e)

last_byte :
    (acc least r c : ℕ) (bs : Bytes)
    → r < 64
    → acc * 64 + r ≡ c
    → valid_char least c ≡ true
    → decode_utf8_from 1 acc least ((0x80 + r) ∷ bs) ≡ (decode_utf8 bs >>= λ s. ok (c ∷ s))
unfolding decode_utf8_from
last_byte acc least r c bs h total valid =
    let k : is_continuation (0x80 + r) ≡ true = ground arith in
    let e : 0x80 + r - 0x80 ≡ r = omega arith in rw (k, e, total, valid)

lead_two :
    (a : ℕ) (bs : Bytes) → a < 32 → decode_utf8 ((0xc0 + a) ∷ bs) ≡ decode_utf8_from 1 a 0x80 bs
unfolding decode_utf8_from
lead_two a bs h =
    let e : 0xc0 + a - 0xc0 ≡ a = omega arith in
    let x : ltb (0xc0 + a) 0x80 ≡ false = ground arith in
    let y : ltb (0xc0 + a) 0xc0 ≡ false = ground arith in
    let z : ltb (0xc0 + a) 0xe0 ≡ true = ground arith in rw (x, y, z, e)

lead_three :
    (a : ℕ) (bs : Bytes) → a < 16 → decode_utf8 ((0xe0 + a) ∷ bs) ≡ decode_utf8_from 2 a 0x800 bs
unfolding decode_utf8_from
lead_three a bs h =
    let e : 0xe0 + a - 0xe0 ≡ a = omega arith in
    let w : ltb (0xe0 + a) 0x80 ≡ false = ground arith in
    let x : ltb (0xe0 + a) 0xc0 ≡ false = ground arith in
    let y : ltb (0xe0 + a) 0xe0 ≡ false = ground arith in
    let z : ltb (0xe0 + a) 0xf0 ≡ true = ground arith in rw (w, x, y, z, e)

lead_four :
    (a : ℕ) (bs : Bytes) → a < 8 → decode_utf8 ((0xf0 + a) ∷ bs) ≡ decode_utf8_from 3 a 0x10000 bs
unfolding decode_utf8_from
lead_four a bs h =
    let e : 0xf0 + a - 0xf0 ≡ a = omega arith in
    let v : ltb (0xf0 + a) 0x80 ≡ false = ground arith in
    let w : ltb (0xf0 + a) 0xc0 ≡ false = ground arith in
    let x : ltb (0xf0 + a) 0xe0 ≡ false = ground arith in
    let y : ltb (0xf0 + a) 0xf0 ≡ false = ground arith in
    let z : ltb (0xf0 + a) 0xf8 ≡ true = ground arith in rw (v, w, x, y, z, e)

lead_one :
    (c : ℕ) (bs : Bytes)
    → ltb c 0x80 ≡ true
    → decode_utf8 (c ∷ bs) ≡ (decode_utf8 bs >>= λ s. ok (c ∷ s))
unfolding decode_utf8_from
lead_one c bs h = rw h

char_valid : (least c : ℕ) → IsChar c → least ≤ c → valid_char least c ≡ true
char_valid least c h le =
    let q = h.below in
    let below : ltb c 0x110000 ≡ true = ground arith in
    let above : leb least c ≡ true = ground arith in rw (h.plain, below, above)

-- One code point in front is decoded.
decode_utf8_char :
    (c : ℕ) (rest : Bytes)
    → IsChar c
    → decode_utf8 (utf8_char c ++ rest) ≡ (decode_utf8 rest >>= λ s. ok (c ∷ s))
decode_utf8_char c rest h = elim (Bool-cases (ltb c 0x80)) [
  | inl one ↦ rw one (lead_one c rest one)
  | inr more1 ↦ elim (Bool-cases (ltb c 0x800)) [
    | inl two ↦
        rw (more1, two, lead_two (c / 64) _ (ground arith))
          (last_byte (c / 64) 0x80 (c % 64) c rest (omega arith) (omega arith)
            (char_valid 0x80 c h (ground arith)))
    | inr more2 ↦ elim (Bool-cases (ltb c 0x10000)) [
      | inl three ↦
          rw
            (
              more1,
              more2,
              three,
              lead_three (c / 4096) _ (ground arith),
              more_byte 0 (c / 4096) 0x800 (c / 64 % 64) _ (omega arith),
            )
            (last_byte (c / 4096 * 64 + c / 64 % 64) 0x800 (c % 64) c rest (omega arith)
              (omega arith) (char_valid 0x800 c h (ground arith)))
      | inr four ↦
          let q = h.below in
          rw
            (
              more1,
              more2,
              four,
              lead_four (c / 262144) _ (omega arith),
              more_byte 1 (c / 262144) 0x10000 (c / 4096 % 64) _ (omega arith),
              more_byte 0 (c / 262144 * 64 + c / 4096 % 64) 0x10000 (c / 64 % 64) _ (omega arith),
            )
            (last_byte ((c / 262144 * 64 + c / 4096 % 64) * 64 + c / 64 % 64) 0x10000 (c % 64) c
              rest (omega arith) (omega arith) (char_valid 0x10000 c h (ground arith)))
    ]
  ]
]

pub decode_utf8-utf8_bytes : (s : Text) → All IsChar s → decode_utf8 (utf8_bytes s) ≡ ok s
decode_utf8-utf8_bytes [] h = unfold decode_utf8_from in refl
decode_utf8-utf8_bytes (c ∷ s) (hc, hs) =
    rw (decode_utf8_char c (utf8_bytes s) hc, decode_utf8-utf8_bytes s hs)
