-- ===== src/Tests/Command.antt =====
-- Runs and instances for crates/nntp-proto/src/command.rs, spec.rs and message_id.rs.
use rust_nntp.Prelude.Text.{Bytes, codes, trim, is_control}
use rust_nntp.Prelude.Decimal.{to_string, emit}
use rust_nntp.Prelude.{false, ℕ, ◌≤◌, List, [], ◌∷◌, ◌++◌, ◌≡◌, refl, arith, some, All, length}
use rust_nntp.Proto.Block.{split_lines}
use rust_nntp.Proto.Command.Safety.{IsPlain, to_wire_lem}
use rust_nntp.Proto.Command.Total.{printable, to_wire-total}
use rust_nntp.Proto.Command.{
  newgroups_format, Command, body, x_over, auth_info_pass, name, to_wire, is_sensitive,
  to_log_string, finish, assemble, with_optional_arg, is_ascii_control,
}
use rust_nntp.Proto.Error.{ok, err, illegal_command_argument}
use rust_nntp.Proto.Names.Encodable.{IsEncodable, printable-IsEncodable}
use rust_nntp.Proto.Command.Log.{to_log_string-assemble}
use rust_nntp.Proto.Utf8.Lossy.{IsChar}
use rust_nntp.Proto.Names.Listed.{parse_list-IsEncodable}
use rust_nntp.Proto.Names.{
  parse_list, scan_ids, parse_message_id, check_inner, inside, strip_first, strip_last, is_empty,
  is_id_illegal,
}
use rust_nntp.Proto.Spec.Chunks.{Tiles, chunks-Tiles}
use rust_nntp.Proto.Spec.{
  Range, between, chunks, chunk_loop, new_between, range_argument, article_argument, from,
  message_id,
}
use rust_nntp.Proto.Utf8.{utf8, encode_char}

-- The dates of the runs, and the text that the formatter makes of each.
abbrev format : ℕ → Bytes → Bytes
format _ pattern = codes "NEWGROUPS 20260704 120000 GMT"

abbrev fetch : Command ℕ
fetch = body (message_id (codes "<a@b.c>"))

fetch_run : to_wire format fetch ≡ ok (codes "BODY <a@b.c>\r\n")
unfolding to_wire finish utf8 assemble with_optional_arg encode_char is_ascii_control
    article_argument
fetch_run = refl

xover_run : to_wire format (x_over (from 12)) ≡ ok (codes "XOVER 12-\r\n")
unfolding to_wire finish utf8 assemble encode_char is_ascii_control range_argument to_string emit
xover_run = refl

injection_run :
    to_wire format (auth_info_pass (codes "x\r\nQUIT"))
    ≡ err (illegal_command_argument (codes "AUTHINFO PASS"))
unfolding to_wire finish utf8 assemble encode_char is_ascii_control name
injection_run = refl

to_wire_lem_example :
    (line : Bytes) × (codes "BODY <a@b.c>\r\n" ≡ line ++ codes "\r\n")
    × All IsPlain line
    × (length (codes "BODY <a@b.c>\r\n") ≤ 512)
    × (split_lines (codes "BODY <a@b.c>\r\n") ≡ line ∷ [])
    × ((rest : Bytes) × (line ≡ utf8 (name fetch) ++ rest))
to_wire_lem_example =
    to_wire_lem format fetch (codes "BODY <a@b.c>\r\n") (λ _. (codes " 20260704 120000 GMT", refl))
      fetch_run

accepted_id : parse_message_id (codes " <a@b.c>") ≡ ok (codes "<a@b.c>")
unfolding parse_message_id utf8 trim encode_char check_inner inside strip_first strip_last is_empty
    is_id_illegal is_control
accepted_id = refl

format-IsEncodable : IsEncodable 510 (format 0 newgroups_format)
format-IsEncodable =
    printable-IsEncodable 510 (format 0 newgroups_format)
      (printable (format 0 newgroups_format) refl) (omega arith)

to_wire-total_example : (bytes : Bytes) × (to_wire format fetch ≡ ok bytes)
to_wire-total_example =
    to_wire-total format fetch (λ _. format-IsEncodable) (codes " <a@b.c>", accepted_id)

chunks_run : chunks (between 1 25) 10 ≡ some (between 1 10 ∷ between 11 20 ∷ between 21 25 ∷ [])
unfolding chunks chunk_loop new_between
chunks_run = refl

chunks-Tiles_example : (rs : List Range) × (chunks (between 1 25) 10 ≡ some rs) × Tiles 10 1 25 rs
chunks-Tiles_example = chunks-Tiles 1 25 10 (omega arith) (omega arith) (omega arith)

fetch_open : is_sensitive fetch ≡ false
unfolding is_sensitive
fetch_open = refl

fetch_chars : All IsChar (assemble format fetch)
unfolding assemble with_optional_arg article_argument
fetch_chars = (
  (refl, omega arith),
  (
    (refl, omega arith),
    (
      (refl, omega arith),
      (
        (refl, omega arith),
        (
          (refl, omega arith),
          (
            (refl, omega arith),
            (
              (refl, omega arith),
              (
                (refl, omega arith),
                (
                  (refl, omega arith),
                  ((refl, omega arith), ((refl, omega arith), ((refl, omega arith), tt))),
                ),
              ),
            ),
          ),
        ),
      ),
    ),
  ),
)

to_log_string-assemble_example : to_log_string format fetch ≡ codes "BODY <a@b.c>"
unfolding assemble with_optional_arg article_argument
to_log_string-assemble_example =
    to_log_string-assemble format fetch (codes "BODY <a@b.c>\r\n") fetch_open fetch_run fetch_chars

parse_list_run : parse_list (codes "<a@b> junk <c d> <e@f>") ≡ codes "<a@b>" ∷ codes "<e@f>" ∷ []
unfolding parse_list scan_ids parse_message_id utf8 trim encode_char check_inner inside strip_first
    strip_last is_empty is_id_illegal is_control
parse_list_run = refl

parse_list-IsEncodable_example : All (IsEncodable 250) (parse_list (codes "<a@b> junk <c d> <e@f>"))
parse_list-IsEncodable_example = parse_list-IsEncodable (codes "<a@b> junk <c d> <e@f>")
