-- ===== src/Asn1/Tag.antt =====
-- TagClass, TypeTagNumber, ASN1Tag and ASN1Header of src/dpapi_ng/_asn1.py. Classes and tag numbers
-- are the numbers of the enums; an IntEnum is equal to its number.
use dpapi_ng.Base.{ℕ, ◌≡◌, refl, ◌<◌, Bool, true, false, ◌&&◌, ◌==◌, ==_refl}

pub record Asn1Tag : Type 0 where
  pub tag_class : ℕ
  pub tag_number : ℕ
  pub is_constructed : Bool

pub record Asn1Header : Type 0 where
  pub tag : Asn1Tag
  pub tag_length : ℕ
  pub length : ℕ

abbrev pub universal : ℕ
universal = 0

abbrev pub context_specific : ℕ
context_specific = 2

-- TypeTagNumber, as far as the program names its members
abbrev pub boolean : ℕ
boolean = 1

abbrev pub integer : ℕ
integer = 2

abbrev pub octet_string : ℕ
octet_string = 4

abbrev pub object_identifier : ℕ
object_identifier = 6

abbrev pub enumerated : ℕ
enumerated = 10

abbrev pub utf8_string : ℕ
utf8_string = 12

abbrev pub sequence : ℕ
sequence = 16

abbrev pub set : ℕ
set = 17

abbrev pub generalized_time : ℕ
generalized_time = 24

-- The enum has a member for each number up to this one.
abbrev pub last_type_number : ℕ
last_type_number = 36

abbrev pub universal_tag : ℕ → Bool → Asn1Tag
universal_tag number is_constructed = record {
  tag_class = universal;
  tag_number = number;
  is_constructed = is_constructed;
}

abbrev pub bool_eq : Bool → Bool → Bool
bool_eq true b = b
bool_eq false true = false
bool_eq false false = true

-- `==` of two tags: tuples, part by part
unfoldable pub tag_eq : Asn1Tag → Asn1Tag → Bool
tag_eq a b =
    a.tag_class == b.tag_class
    && (a.tag_number == b.tag_number && bool_eq a.is_constructed b.is_constructed)

bool_eq_refl : (b : Bool) → bool_eq b b ≡ true
bool_eq_refl true = refl
bool_eq_refl false = refl

pub tag_eq_refl : (t : Asn1Tag) → tag_eq t t ≡ true
unfolding tag_eq
tag_eq_refl t = rw (==_refl t.tag_class, ==_refl t.tag_number, bool_eq_refl t.is_constructed)

-- A tag that one octet holds.
pub record IsLowTag (t : Asn1Tag) : Type 0 where
  pub tag_class : t.tag_class < 4
  pub tag_number : t.tag_number < 31
