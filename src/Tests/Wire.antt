-- ===== src/Tests/Wire.antt =====
-- Runs and instances for crates/nntp-proto/src/block.rs and crates/nntp-client/src/connection.rs.
use rust_nntp.Client.Connection.{
  Connection, chunk, default_limits, ok, err, line_too_long, read_block, read_line,
  read_block_streaming,
}
use rust_nntp.Client.Connection.Blocks.{Fits, read_block-wire}
use rust_nntp.Client.Connection.Bounds.{Ends, read_block_streaming-Ends}
use rust_nntp.Client.Connection.Line.{Agrees, IsSteady, unread, line_of, read_line-Agrees}
use rust_nntp.Prelude.Text.{Bytes, codes}
use rust_nntp.Prelude.{
  false, List, [], ◌∷◌, ◌++◌, ◌≡◌, ◌≢◌, ◌⊎◌, refl, arith, some, All, ◌+◌, ltb, if◌then◌else◌,
  length,
}
use rust_nntp.Proto.Block.{
  parse, stuff, unstuff, is_terminator, split_head_body, split_lines, find_newline, byte_len_of,
}
use rust_nntp.Proto.Block.Split.{split_head_body_lem, push_all, push_all-parse}
use rust_nntp.Proto.Block.Stuffing.{unstuff-stuff, wire, parse-wire}

abbrev article : List Bytes
article = codes ".sig" ∷ [] ∷ codes "ab" ∷ []

-- The block, split in the middle of its second CRLF, with a greeting behind it.
abbrev connection : Connection
connection = record {
  buffer = codes "..sig\r\n\r";
  events = chunk (codes "\nab\r\n") ∷ chunk (codes ".\r\n200 hi\r\n") ∷ [];
  sent = [];
  limits = default_limits;
  desynchronised = false;
}

unstuff-stuff_example :
    (unstuff (stuff (codes ".")) ≡ codes ".") × (is_terminator (stuff (codes ".")) ≡ false)
unstuff-stuff_example = unstuff-stuff (codes ".")

parse-wire_example : parse (wire article ++ codes "x") ≡ record { lines = article }
parse-wire_example = parse-wire article (codes "x") (omega arith)

split_head_body_example :
    All (λ l. l ≢ []) (split_head_body (record { lines = article })).0
    × ((article
          ≡ (split_head_body (record { lines = article })).0
            ++ [] ∷ (split_head_body (record { lines = article })).1)
        ⊎ ((article ≡ (split_head_body (record { lines = article })).0)
            × ((split_head_body (record { lines = article })).1 ≡ [])))
split_head_body_example = split_head_body_lem (record { lines = article })

push_all-parse_example :
    push_all (record { lines = [] }) (split_lines (codes "a\n.\nb")) ≡ parse (codes "a\n.\nb")
push_all-parse_example = push_all-parse (codes "a\n.\nb")

read_line-Agrees_example :
    Agrees connection (unread connection) (find_newline (unread connection)) (read_line connection)
    × ((p rest : Bytes)
        → line_of connection.limits.max_line_len (unread connection) (some (p ++ b'\r' ∷ [], rest))
          ≡ (if ltb connection.limits.max_line_len (length p + 1)
              then err (line_too_long connection.limits.max_line_len)
              else ok p))
read_line-Agrees_example = read_line-Agrees connection tt refl

article-Fits : Fits default_limits 0 0 article
unfolding stuff byte_len_of
article-Fits = omega arith

read_block-wire_example :
    (c : Connection) × (read_block (λ _. false) connection ≡ some (ok article, c))
    × (unread c ≡ codes "200 hi\r\n")
    × (c.desynchronised ≡ false)
    × IsSteady c.events
unfolding wire stuff
read_block-wire_example =
    read_block-wire (λ _. false) connection article (codes "200 hi\r\n") (λ _. refl) tt refl refl
      (omega arith) article-Fits

read_block_streaming-Ends_example :
    Ends default_limits (read_block_streaming (λ _. false) connection)
read_block_streaming-Ends_example = read_block_streaming-Ends (λ _. false) connection
