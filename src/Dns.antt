-- ===== src/Dns.antt =====
-- SrvRecord, _get_highest_answer and lookup_dc of src/dpapi_ng/_dns.py. The resolver is a parameter:
-- for the name of an SRV record, which it also looks for in the search domains, the records of its
-- answer, each with str(target).
use dpapi_ng.Base.{
  ℕ, ◌<◌, ◌≤◌, ◌≡◌, refl, arith, ◌⊎◌, inl, inr, Bool, true, false, ◌&&◌, ◌||◌, ◌==◌, ltb,
  Bool-cases, List, [], ◌∷◌, map, All, if◌then◌else◌, Result, ok, err, index_error, ◌>>=◌, Option,
  none, some, ◌++◌,
}
use dpapi_ng.Bytes.Text.{Text, text}

pub record SrvRecord : Type 0 where
  pub target : Text
  pub port : ℕ
  pub weight : ℕ
  pub priority : ℕ

abbrev is_empty : Text → Bool
is_empty [] = true
is_empty (c ∷ s) = false

-- text.rstrip(".")
abbrev pub rstrip_dots : Text → Text
rstrip_dots [] = []
rstrip_dots (c ∷ s) = let rest = rstrip_dots s in if c == 46 && is_empty rest then [] else c ∷ rest

abbrev pub srv_record : SrvRecord → SrvRecord
srv_record a = record a { target = rstrip_dots a.target }

-- (a.priority, -a.weight) < (b.priority, -b.weight)
abbrev pub before : SrvRecord → SrvRecord → Bool
before a b = ltb a.priority b.priority || (a.priority == b.priority && ltb b.weight a.weight)

-- sorted: a stable sort, here by insertion
unfoldable pub insert_sorted : SrvRecord → List SrvRecord → List SrvRecord
insert_sorted a [] = a ∷ []
insert_sorted a (b ∷ bs) = if before b a then b ∷ insert_sorted a bs else a ∷ b ∷ bs

unfoldable pub sorted : List SrvRecord → List SrvRecord
sorted [] = []
sorted (a ∷ rest) = insert_sorted a (sorted rest)

abbrev pub first : List SrvRecord → Result SrvRecord
first [] = err index_error
first (a ∷ rest) = ok a

unfoldable pub get_highest_answer : List SrvRecord → Result SrvRecord
get_highest_answer answer = first (sorted (map srv_record answer))

-- An empty domain name counts as none.
unfoldable pub record_name : Option Text → Text
record_name none = text "_ldap._tcp.dc._msdcs"
record_name (some []) = text "_ldap._tcp.dc._msdcs"
record_name (some (c ∷ s)) = text "_ldap._tcp.dc._msdcs." ++ (c ∷ s)

unfoldable pub lookup_dc : (Text → Result (List SrvRecord)) → Option Text → Result SrvRecord
lookup_dc resolve domain_name = do
  answers ← resolve (record_name domain_name)
  get_highest_answer answers

abbrev pub In : SrvRecord → List SrvRecord → Type 0
In a [] = ⊥
In a (b ∷ bs) = (a ≡ b) ⊎ In a bs

-- None of the others has a smaller priority, or the same one and a greater weight.
abbrev pub IsBest : SrvRecord → List SrvRecord → Type 0
IsBest r answers =
    All
      (λ (a : SrvRecord).
        (r.priority < a.priority) ⊎ ((r.priority ≡ a.priority) × (a.weight ≤ r.weight)))
      answers

best_of :
    (x y a : SrvRecord)
    → before y x ≡ false
    → (y.priority < a.priority) ⊎ ((y.priority ≡ a.priority) × (a.weight ≤ y.weight))
    → (x.priority < a.priority) ⊎ ((x.priority ≡ a.priority) × (a.weight ≤ x.weight))
best_of x y a h best = ground arith

IsBest-below :
    (x y : SrvRecord) (answers : List SrvRecord)
    → before y x ≡ false
    → IsBest y answers
    → IsBest x answers
IsBest-below x y [] h best = tt
IsBest-below x y (a ∷ answers) h (b, best) = (best_of x y a h b, IsBest-below x y answers h best)

-- The head of the sorted list, for a list that is not empty.
sorted_head :
    (a : SrvRecord) (rest : List SrvRecord)
    → (r : SrvRecord) × (others : List SrvRecord) × (sorted (a ∷ rest) ≡ r ∷ others)
      × In r (a ∷ rest)
      × IsBest r (a ∷ rest)
unfolding sorted insert_sorted
sorted_head a [] = (a, [], refl, inl refl, (inr (refl, omega arith), tt))
sorted_head a (b ∷ rest) =
    let (r, others, e, member, best) = sorted_head b rest in
    elim (Bool-cases (before r a)) [
      | inl lower ↦ (
        r,
        insert_sorted a others,
        rw (e, insert_sorted, lower),
        inr member,
        (ground arith, best),
      )
      | inr higher ↦ (
        a,
        r ∷ others,
        rw (e, insert_sorted, higher),
        inl refl,
        (inr (refl, omega arith), IsBest-below a r (b ∷ rest) higher best),
      )
    ]

-- For an answer of at least one record, _get_highest_answer returns one of its records, with the
-- trailing dots of the target removed, such that no record has a smaller priority, or the same
-- priority and a greater weight.
pub get_highest_answer-IsBest :
    (a : SrvRecord) (rest : List SrvRecord)
    → (r : SrvRecord) × (get_highest_answer (a ∷ rest) ≡ ok r)
      × In r (map srv_record (a ∷ rest))
      × IsBest r (map srv_record (a ∷ rest))
unfolding get_highest_answer
get_highest_answer-IsBest a rest =
    let (r, others, e, member, best) = sorted_head (srv_record a) (map srv_record rest) in
    (r, rw e, member, best)
