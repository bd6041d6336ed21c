-- ===== src/Client/Connection/Commands.antt =====
-- `send`, `read_status` and `command` of crates/nntp-client/src/connection.rs.
use rust_nntp.Client.Connection.Line.{IsSteady, unread, read_line-Agrees, read_line_sent}
use rust_nntp.Client.Connection.{
  Connection, ErrorKind, Result, ok, err, connection_closed, proto, read_line, write_all,
}
use rust_nntp.Prelude.Text.Laws.{Lacks}
use rust_nntp.Prelude.Text.{Bytes, codes}
use rust_nntp.Prelude.{
  ℕ, ◌+◌, ◌≤◌, ◌<◌, false, Option, none, ◌++◌, ◌≡◌, refl, ap, sym, ◌∙◌, arith, if◌then◌else◌, All,
  length, append_assoc,
}
use rust_nntp.Proto.Command.{Command, to_wire}
use rust_nntp.Proto.Error
use rust_nntp.Proto.Response.Parse.{
  status_wire, status_text, parse_status-status_text, status_text-Lacks,
}
use rust_nntp.Proto.Response.{StatusLine, parse_status}
use rust_nntp.Proto.Utf8.Lossy.{IsChar}
use rust_nntp.Proto.Utf8.{utf8}

-- An error of the protocol layer as one of the client, `From<ProtoError>`.
abbrev pub lift {ℓ} : {A : Type ℓ} → Error.Result A → Result A
lift (Error.ok a) = ok a
lift (Error.err e) = err (proto e)

-- `send` behind the encoding
unfoldable pub send_encoded :
    Option (ℕ × ErrorKind) → Error.Result Bytes → Connection → Result (Unit {0}) × Connection
send_encoded failure (Error.err e) c = (err (proto e), c)
send_encoded failure (Error.ok bytes) c = write_all failure bytes c

abbrev pub status_of : Result Bytes × Connection → Result StatusLine × Connection
status_of (err e, c) = (err e, c)
status_of (ok line, c) = (lift (parse_status line), c)

unfoldable pub read_status : Connection → Result StatusLine × Connection
read_status c = status_of (read_line c)

unfoldable pub after_send : Result (Unit {0}) × Connection → Result StatusLine × Connection
after_send (err e, c) = (err e, c)
after_send (ok done, c) = read_status c

module _ {DateTime : Type 0} (format : DateTime → Bytes → Bytes) where
  unfoldable pub send :
      Option (ℕ × ErrorKind) → Command DateTime → Connection → Result (Unit {0}) × Connection
  send failure cmd c =
      if c.desynchronised
      then (err connection_closed, c)
      else send_encoded failure (to_wire format cmd) c

  unfoldable pub command :
      Option (ℕ × ErrorKind) → Command DateTime → Connection → Result StatusLine × Connection
  command failure cmd c = after_send (send failure cmd c)

-- A status line that fits is read with its code and text, and the octets behind it are left.
pub read_status-wire :
    (c : Connection) (code : ℕ) (text rest : Bytes)
    → IsSteady c.events
    → c.desynchronised ≡ false
    → unread c ≡ status_wire code text ++ rest
    → code < 1000
    → All IsChar text
    → Lacks b'\n' text
    → Lacks b'\r' text
    → length (utf8 text) + 5 ≤ c.limits.max_line_len
    → (c' : Connection) × (read_status c ≡ (ok (record { code = code; text = text }), c'))
      × (unread c' ≡ rest)
      × (c'.sent ≡ c.sent)
      × (c'.desynchronised ≡ false)
unfolding read_status status_wire
read_status-wire c code text rest st d u small chars lf cr fits =
    let (c', e, left, _, sync, _) =
      read_line_sent c (status_text code text) rest st d
        (u ∙ append_assoc (status_text code text) (codes "\r\n") rest)
        (status_text-Lacks b'\n' code text (omega arith) lf) (omega (arith, fits)) in
    (
      c',
      ap status_of e
          ∙ ap (λ r. (lift r, c')) (parse_status-status_text code text small chars lf cr),
      left,
      ap (λ r. r.1.sent) (sym e) ∙ (read_line-Agrees c st d).0.sent,
      sync,
    )

send_lem :
    {DateTime : Type 0} (format : DateTime → Bytes → Bytes) (cmd : Command DateTime) (bytes : Bytes)
    (c : Connection)
    → to_wire format cmd ≡ Error.ok bytes
    → c.desynchronised ≡ false
    → send format none cmd c ≡ (ok tt, record c { sent = c.sent ++ bytes })
unfolding send send_encoded write_all
send_lem format cmd bytes c w d =
    ap (λ b. if b then (err connection_closed, c) else send_encoded none (to_wire format cmd) c) d
    ∙ ap (λ r. send_encoded none r c) w

-- If the connection is in step, no read or write fails and no read is empty, and a status line with a
-- code below 1000 and a text of Unicode scalar values without CR or LF is what stands next in the
-- stream, within the limit, then for a command that is encoded `command` has written its octets behind
-- what was sent before and returns that code and that text, and what stands behind the line is left
-- unread.
pub command_lem :
    {DateTime : Type 0} (format : DateTime → Bytes → Bytes) (cmd : Command DateTime) (bytes : Bytes)
    (c : Connection) (code : ℕ) (text rest : Bytes)
    → to_wire format cmd ≡ Error.ok bytes
    → IsSteady c.events
    → c.desynchronised ≡ false
    → unread c ≡ status_wire code text ++ rest
    → code < 1000
    → All IsChar text
    → Lacks b'\n' text
    → Lacks b'\r' text
    → length (utf8 text) + 5 ≤ c.limits.max_line_len
    → (c' : Connection) × (command format none cmd c
        ≡ (ok (record { code = code; text = text }), c'))
      × (unread c' ≡ rest)
      × (c'.sent ≡ c.sent ++ bytes)
      × (c'.desynchronised ≡ false)
unfolding command after_send
command_lem format cmd bytes c code text rest w st d u small chars lf cr fits =
    let (c', e, left, written, sync) =
      read_status-wire (record c { sent = c.sent ++ bytes }) code text rest st d u small chars lf cr
        fits in
    (c', ap after_send (send_lem format cmd bytes c w d) ∙ e, left, written, sync)

-- A command that cannot be encoded is not sent: nothing is written or read.
pub command-unencodable :
    {DateTime : Type 0} (format : DateTime → Bytes → Bytes) (failure : Option (ℕ × ErrorKind))
    (cmd : Command DateTime) (e : Error.ProtoError) (c : Connection)
    → to_wire format cmd ≡ Error.err e
    → c.desynchronised ≡ false
    → command format failure cmd c ≡ (err (proto e), c)
unfolding command send send_encoded after_send
command-unencodable format failure cmd e c w d = rw (d, w) refl
