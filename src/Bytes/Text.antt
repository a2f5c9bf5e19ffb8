-- ===== src/Bytes/Text.antt =====
-- str values as code points, and the codecs of the standard library that the source uses.
use Prim.Native.Char.{code}
use Prim.Native.String.{String}
use dpapi_ng.Base.{
  ℕ, ◌+◌, ◌-◌, ◌*◌, ◌/◌, ◌%◌, ◌<◌, ◌≡◌, subst, refl, arith, Bool, ◌&&◌, List, [], ◌∷◌, ◌++◌, ltb,
  leb, if◌then◌else◌, Result, ok, err, unicode_error, ◌>>=◌, All, ◌≤◌, Bool-cases, false, inl, inr,
}
use dpapi_ng.Bytes.{Bytes}

abbrev pub Text : Type 0
Text = List ℕ

abbrev pub text : String → Text
text String.[] = []
text (String.◌∷◌ c s) = code c ∷ text s

-- Code points that a str holds but that no UTF encodes.
abbrev pub is_surrogate : ℕ → Bool
is_surrogate c = leb 0xd800 c && ltb c 0xe000

-- One 16-bit unit, low byte first.
abbrev pub unit_bytes : ℕ → Bytes
unit_bytes u = u % 256 ∷ u / 256 ∷ []

-- The bytes of one code point: one unit, or a surrogate pair.
abbrev pub char_bytes : ℕ → Bytes
char_bytes c =
    if ltb c 0x10000
    then unit_bytes c
    else unit_bytes (0xd800 + (c - 0x10000) / 0x400) ++ unit_bytes (0xdc00 + (c - 0x10000) % 0x400)

-- s.encode("utf-16-le")
unfoldable pub encode_utf16 : Text → Result Bytes
encode_utf16 [] = ok []
encode_utf16 (c ∷ s) =
    let rest = encode_utf16 s in
    if is_surrogate c then err unicode_error else do bs ← rest; ok (char_bytes c ++ bs)

-- bs.decode("utf-16-le"): a high unit wants a low one behind it.
unfoldable pub decode_utf16 : Bytes → Result Text
decode_utf16 [] = ok []
decode_utf16 (a ∷ []) = err unicode_error
decode_utf16 (a ∷ b ∷ []) =
    let u = a + 256 * b in if is_surrogate u then err unicode_error else ok (u ∷ [])
decode_utf16 (a ∷ b ∷ c ∷ []) = err unicode_error
decode_utf16 (a ∷ b ∷ c ∷ d ∷ bs) =
    let u = a + 256 * b in
    let v = c + 256 * d in
    let next = decode_utf16 (c ∷ d ∷ bs) in
    let after = decode_utf16 bs in
    if leb 0xd800 u && ltb u 0xdc00
    then (if leb 0xdc00 v && ltb v 0xe000
        then (do s ← after; ok ((0x10000 + 0x400 * (u - 0xd800) + (v - 0xdc00)) ∷ s))
        else err unicode_error)
    else if is_surrogate u
    then err unicode_error
    else do s ← next; ok (u ∷ s)

-- A code point that a UTF encodes.
pub record IsChar (c : ℕ) : Type 0 where
  pub below : c < 0x110000
  pub plain : is_surrogate c ≡ false

-- The code units of an encodable text.
abbrev pub utf16_bytes : Text → Bytes
utf16_bytes [] = []
utf16_bytes (c ∷ s) = char_bytes c ++ utf16_bytes s

pub encode_utf16-ok : (s : Text) → All IsChar s → encode_utf16 s ≡ ok (utf16_bytes s)
unfolding encode_utf16
encode_utf16-ok [] h = refl
encode_utf16-ok (c ∷ s) (hc, hs) = rw (hc.plain, encode_utf16-ok s hs)

decode_unit :
    (a b : ℕ) (bs : Bytes)
    → is_surrogate (a + 256 * b) ≡ false
    → decode_utf16 (a ∷ b ∷ bs) ≡ (decode_utf16 bs >>= λ s. ok ((a + 256 * b) ∷ s))
unfolding decode_utf16
decode_unit a b [] h = ground arith
decode_unit a b (c ∷ []) h = refl
decode_unit a b (c ∷ d ∷ bs) h = ground arith

-- The code point of a high and a low unit.
abbrev pair_value : ℕ → ℕ → ℕ
pair_value u v = 0x10000 + 0x400 * (u - 0xd800) + (v - 0xdc00)

decode_pair :
    (a b c d : ℕ) (bs : Bytes)
    → 0xd800 ≤ a + 256 * b
    → a + 256 * b < 0xdc00
    → 0xdc00 ≤ c + 256 * d
    → c + 256 * d < 0xe000
    → decode_utf16 (a ∷ b ∷ c ∷ d ∷ bs)
      ≡ (decode_utf16 bs >>= λ s. ok (pair_value (a + 256 * b) (c + 256 * d) ∷ s))
unfolding decode_utf16
decode_pair a b c d bs h1 h2 h3 h4 = ground arith

decode_char :
    (c : ℕ) (bs : Bytes)
    → IsChar c
    → decode_utf16 (char_bytes c ++ bs) ≡ (decode_utf16 bs >>= λ s. ok (c ∷ s))
decode_char c bs h = elim (Bool-cases (ltb c 0x10000)) [
  | inl small ↦
      let e : c % 256 + 256 * (c / 256) ≡ c = omega arith in
      rw small (
        subst (λ w. decode_utf16 (c % 256 ∷ c / 256 ∷ bs) ≡ (decode_utf16 bs >>= λ s. ok (w ∷ s))) e
          (decode_unit (c % 256) (c / 256) bs (rw e h.plain)))
  | inr large ↦
      let hi : ℕ = 0xd800 + (c - 0x10000) / 0x400 in
      let lo : ℕ = 0xdc00 + (c - 0x10000) % 0x400 in
      let least : 0x10000 ≤ c = ground arith in
      let most : c < 0x110000 = h.below in
      let e : pair_value (hi % 256 + 256 * (hi / 256)) (lo % 256 + 256 * (lo / 256)) ≡ c =
        omega arith in
      rw large (
        subst
          (λ w.
            decode_utf16 (hi % 256 ∷ hi / 256 ∷ lo % 256 ∷ lo / 256 ∷ bs)
            ≡ (decode_utf16 bs >>= λ s. ok (w ∷ s)))
          e
          (decode_pair (hi % 256) (hi / 256) (lo % 256) (lo / 256) bs (omega arith) (omega arith)
            (omega arith) (omega arith)))
]

-- What encode writes, decode reads back.
pub decode_utf16-utf16_bytes : (s : Text) → All IsChar s → decode_utf16 (utf16_bytes s) ≡ ok s
decode_utf16-utf16_bytes [] h = unfold decode_utf16 in refl
decode_utf16-utf16_bytes (c ∷ s) (hc, hs) =
    rw (decode_char c (utf16_bytes s) hc, decode_utf16-utf16_bytes s hs)
