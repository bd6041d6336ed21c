-- ===== src/Tests/Session.antt =====
-- Runs and instances for crates/nntp-proto/src/response.rs, group.rs, and the commands of
-- crates/nntp-client/src/connection.rs.
use rust_nntp.Client.Connection.Commands.{command, command_lem}
use rust_nntp.Client.Connection.Line.{unread}
use rust_nntp.Client.Connection.{Connection, chunk, default_limits, ok}
use rust_nntp.Prelude.Text.{Bytes, codes}
use rust_nntp.Prelude.{ℕ, [], ◌∷◌, ◌++◌, ◌≡◌, refl, arith, none, false}
use rust_nntp.Proto.Command.{Command, group, to_wire, finish, assemble, is_ascii_control}
use rust_nntp.Proto.Error
use rust_nntp.Proto.Group.{parse_summary}
use rust_nntp.Proto.Group.Reply.{group_text, parse_summary-group_text}
use rust_nntp.Proto.Names.{parse_group_name, is_empty, is_group_name_octet}
use rust_nntp.Prelude.Text.{is_ascii_graphic, is_ascii_digit}
use rust_nntp.Proto.Response.Parse.{status_wire, parse_status-wire}
use rust_nntp.Proto.Response.{
  parse_status, parse_stripped, strip_eol, strip_one, read_text, value_of,
}
use rust_nntp.Proto.Utf8.{utf8, encode_char}
use rust_nntp.Proto.Utf8.Lossy.{lossy, decode, next, start}

parse_status-wire_example :
    parse_status (status_wire 205 (codes "bye"))
    ≡ Error.ok (record { code = 205; text = codes "bye" })
parse_status-wire_example =
    parse_status-wire 205 (codes "bye") (omega arith)
      ((refl, omega arith), ((refl, omega arith), ((refl, omega arith), tt)))

-- Two octets that are not UTF-8 stand for two characters that cannot be read.
lossy_run :
    parse_status (codes "480\tlog in" ++ 0xC3 ∷ 0xE9 ∷ [])
    ≡ Error.ok (record { code = 480; text = codes "log in" ++ 0xFFFD ∷ 0xFFFD ∷ [] })
unfolding parse_status parse_stripped strip_eol strip_one is_ascii_digit read_text value_of lossy
    decode next start
lossy_run = refl

abbrev select : Command ℕ
select = group (codes "a.b")

abbrev format : ℕ → Bytes → Bytes
format _ pattern = codes "NEWGROUPS 20260704 120000 GMT"

select_run : to_wire format select ≡ Error.ok (codes "GROUP a.b\r\n")
unfolding to_wire finish assemble utf8 encode_char is_ascii_control
select_run = refl

abbrev session : Connection
session = record {
  buffer = [];
  events = chunk (codes "411 n") ∷ chunk (codes "o\r") ∷ chunk (codes "\n200") ∷ [];
  sent = codes "DATE\r\n";
  limits = default_limits;
  desynchronised = false;
}

command_lem_example :
    (c' : Connection) × (command format none select session
      ≡ (ok (record { code = 411; text = codes "no" }), c'))
    × (unread c' ≡ codes "200")
    × (c'.sent ≡ codes "DATE\r\nGROUP a.b\r\n")
    × (c'.desynchronised ≡ false)
unfolding status_wire utf8 encode_char
command_lem_example =
    command_lem format select (codes "GROUP a.b\r\n") session 411 (codes "no") (codes "200")
      select_run tt refl refl (omega arith) ((refl, omega arith), ((refl, omega arith), tt))
      (omega arith, (omega arith, tt)) (omega arith, (omega arith, tt)) (omega arith)

accepted_run : parse_group_name (codes "a.b") ≡ Error.ok (codes "a.b")
unfolding parse_group_name is_empty utf8 encode_char is_group_name_octet is_ascii_graphic
accepted_run = refl

parse_summary-group_text_example :
    parse_summary (record { code = 211; text = group_text 2 10 11 (codes "a.b") }) none
    ≡ Error.ok (record { name = codes "a.b"; estimated_count = 2; low = 10; high = 11 })
parse_summary-group_text_example =
    parse_summary-group_text 211 2 10 11 (codes "a.b") (codes "a.b") none (omega arith)
      (omega arith) (omega arith) accepted_run
