-- ===== src/Proto/Names/Listed.antt =====
-- `MessageId::parse_list` of crates/nntp-proto/src/message_id.rs yields accepted message ids only.
use rust_nntp.Prelude.Text.{Bytes}
use rust_nntp.Prelude.{Option, none, some, List, [], ◌∷◌, ◌++◌, ◌≡◌, refl, ◌==◌, if◌then◌else◌, All}
use rust_nntp.Proto.Error.{Result, ok, err}
use rust_nntp.Proto.Names.Encodable.{IsEncodable, parse_message_id-IsEncodable}
use rust_nntp.Proto.Names.{parse_message_id, keep_id, scan_ids, parse_list}

keep_result :
    (candidate : Bytes) (r : Result Bytes) (out : List Bytes)
    → parse_message_id candidate ≡ r
    → All (IsEncodable 250) out
    → All (IsEncodable 250) (elim r as (λ x. List Bytes) [ ok id ↦ id ∷ out | err e ↦ out ])
keep_result candidate (ok id) out e h = (parse_message_id-IsEncodable candidate id e, h)
keep_result candidate (err x) out e h = h

keep_id-IsEncodable :
    (candidate : Option Bytes) (out : List Bytes)
    → All (IsEncodable 250) out
    → All (IsEncodable 250) (keep_id candidate out)
keep_id-IsEncodable none out h = h
keep_id-IsEncodable (some candidate) out h =
    keep_result candidate (parse_message_id candidate) out refl h

scan_ids-IsEncodable :
    (candidate : Option Bytes) (rest : Bytes) → All (IsEncodable 250) (scan_ids candidate rest)
unfolding scan_ids
scan_ids-IsEncodable none [] = tt
scan_ids-IsEncodable (some candidate) [] = tt
scan_ids-IsEncodable none (c ∷ rest) =
    scan_ids-IsEncodable (if c == b'<' then some (c ∷ []) else none) rest
scan_ids-IsEncodable (some candidate) (c ∷ rest) =
    keep_id-IsEncodable (if c == b'>' then some (candidate ++ c ∷ []) else none) _
      (scan_ids-IsEncodable (if c == b'>' then none else some (candidate ++ c ∷ [])) rest)

-- Whatever a header holds, each message id taken from it is at most 250 octets, none of them a
-- control octet.
pub parse_list-IsEncodable : (value : Bytes) → All (IsEncodable 250) (parse_list value)
unfolding parse_list
parse_list-IsEncodable value = scan_ids-IsEncodable none value
