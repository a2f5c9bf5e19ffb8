-- ===== src/Tests/Dns.antt =====
-- The choice of a domain controller at concrete inputs.
use dpapi_ng.Base.{◌≡◌, [], ◌∷◌, map, ok}
use dpapi_ng.Bytes.Text.{text}
use dpapi_ng.Dns.{SrvRecord, srv_record, In, IsBest, get_highest_answer, get_highest_answer-IsBest}

abbrev dc1 : SrvRecord
dc1 = record { target = text "dc1.domain.test."; port = 389; weight = 10; priority = 1 }

abbrev dc2 : SrvRecord
dc2 = record { target = text "dc2.domain.test."; port = 389; weight = 90; priority = 1 }

get_highest_answer-IsBest_example :
    (r : SrvRecord) × (get_highest_answer (dc1 ∷ dc2 ∷ []) ≡ ok r)
    × In r (map srv_record (dc1 ∷ dc2 ∷ []))
    × IsBest r (map srv_record (dc1 ∷ dc2 ∷ []))
get_highest_answer-IsBest_example = get_highest_answer-IsBest dc1 (dc2 ∷ [])
