-- ===== src/Client/Connection/Line.antt =====
-- `read_line` of crates/nntp-client/src/connection.rs: however the octets arrive in buffers, the
-- lines are those of the stream.
use rust_nntp.Prelude.Text.{Bytes}
use rust_nntp.Prelude.Text.Laws.{Lacks}
use rust_nntp.Prelude.{
  ℕ, ◌+◌, ◌≤◌, ◌<◌, Bool, true, false, Option, none, some, List, [], ◌∷◌, ◌++◌, ◌≡◌, inl, inr, refl,
  sym, ap, ◌∙◌, arith, ltb, if◌then◌else◌, Bool-cases, length, length-append, append_assoc,
  append-nil,
}
use rust_nntp.Proto.Block.Stuffing.{strip_cr-append}
use rust_nntp.Proto.Block.{strip_cr, prepend, find_newline}
use rust_nntp.Client.Connection.Search.{
  extend, prepend-nil, prepend-prepend, find_newline-append, find_sent,
}
use rust_nntp.Client.Connection.{
  connection_closed, line_too_long, Result, ok, err, Event, chunk, fault, Connection, complete_line,
  round, read_loop, read_line,
}

-- The octets that the reads deliver.
abbrev pub flat : List Event → Bytes
flat [] = []
flat (chunk b ∷ es) = b ++ flat es
flat (fault kind ∷ es) = flat es

-- No read fails, and none is empty.
abbrev pub IsSteady : List Event → Type 0
IsSteady [] = Unit
IsSteady (chunk [] ∷ es) = ⊥
IsSteady (chunk (b ∷ bs) ∷ es) = IsSteady es
IsSteady (fault kind ∷ es) = ⊥

-- The octets of the stream that have not been consumed.
abbrev pub unread : Connection → Bytes
unread c = c.buffer ++ flat c.events

-- What the stream holds for the next line, with no regard to its buffers: too long a line is an
-- error whether its end has arrived or not. The limit is on the octets in front of the LF, so it
-- counts the CR of a CRLF: `read_line` tests the length before it removes the CR, where the doc
-- comment of `max_line_len` in crates/nntp-client/src/limits.rs says that the CRLF is excluded.
unfoldable pub line_of : ℕ → Bytes → Option (Bytes × Bytes) → Result Bytes
line_of limit s (some (head, tail)) =
    if ltb limit (length head) then err (line_too_long limit) else ok (strip_cr head)
line_of limit s none =
    if ltb limit (length s) then err (line_too_long limit) else err connection_closed

abbrev is_err : Result Bytes → Bool
is_err (ok line) = false
is_err (err e) = true

-- What the read of a line does on the unread octets `s`, where `o` is the search for an LF in them:
-- the result, and what is left of the connection.
pub record Agrees (c : Connection) (s : Bytes) (o : Option (Bytes × Bytes))
    (r : Result Bytes × Connection) : Type 0 where
  pub result : r.0 ≡ line_of c.limits.max_line_len s o
  pub limits : r.1.limits ≡ c.limits
  pub sent : r.1.sent ≡ c.sent
  pub lost : r.1.desynchronised ≡ is_err r.0
  pub steady : IsSteady r.1.events
  pub rest : (line head tail : Bytes) → r.0 ≡ ok line → o ≡ some (head, tail) → unread r.1 ≡ tail

-- A line that is too long already is too long, whatever follows.
line_of_long :
    (limit : ℕ) (p t : Bytes) (o : Option (Bytes × Bytes))
    → limit < length p
    → line_of limit (p ++ t) (prepend p o) ≡ err (line_too_long limit)
unfolding line_of
line_of_long limit p t none h = ground (arith, length-append p t)
line_of_long limit p t (some (a, b)) h = ground (arith, length-append p a)

complete_line-Agrees :
    (c : Connection) (line h t s : Bytes) (es : List Event)
    → IsSteady es
    → c.desynchronised ≡ false
    → Agrees c s
        (some (line ++ h, t ++ flat es))
        (complete_line (record c { buffer = t; events = es }) (line ++ h))
unfolding complete_line line_of
complete_line-Agrees c line h t s es st d =
    elim (Bool-cases (ltb c.limits.max_line_len (length (line ++ h)))) [
      | inl e ↦ rw e (record {
        result = rw e;
        limits = refl;
        sent = refl;
        lost = refl;
        steady = st;
        rest = λ l a b p q. cc;
      })
      | inr e ↦ rw e (record {
        result = rw e;
        limits = refl;
        sent = refl;
        lost = d;
        steady = st;
        rest = λ l a b p q. ground arith;
      })
    ]

round-Agrees :
    (c : Connection) (line buffer : Bytes) (es : List Event) (more : Result Bytes × Connection)
    → IsSteady es
    → c.desynchronised ≡ false
    → (ltb c.limits.max_line_len (length (line ++ buffer)) ≡ false
        → Agrees c
            ((line ++ buffer) ++ flat es)
            (prepend (line ++ buffer) (find_newline (flat es)))
            more)
    → (f : Option (Bytes × Bytes)) → find_newline buffer ≡ f
    → Agrees c
        ((line ++ buffer) ++ flat es)
        (prepend line (extend buffer (flat es) f))
        (round c line buffer es more)
unfolding round
round-Agrees c line buffer es more st d later (some (h, t)) e =
    rw (e, round) (complete_line-Agrees c line h t _ es st d)
round-Agrees c line buffer es more st d later none e =
    rw (e, round, prepend-prepend)
      (elim (Bool-cases (ltb c.limits.max_line_len (length (line ++ buffer)))) [
        | inl long ↦ rw long (record {
          result =
              sym
                (line_of_long _ (line ++ buffer) (flat es) (find_newline (flat es)) (ground arith));
          limits = refl;
          sent = refl;
          lost = refl;
          steady = st;
          rest = λ l a b p q. cc;
        })
        | inr fits ↦ rw fits (later fits)
      ])

-- At the end of the stream, with no LF left.
closed-Agrees :
    (c : Connection) (p : Bytes)
    → c.desynchronised ≡ false
    → ltb c.limits.max_line_len (length p) ≡ false
    → Agrees c
        (p ++ [])
        (prepend p (find_newline []))
        (err connection_closed, record c { buffer = []; events = []; desynchronised = true })
unfolding line_of find_newline
closed-Agrees c p d fits = rw append-nil (record {
  result = rw fits;
  limits = refl;
  sent = refl;
  lost = refl;
  steady = tt;
  rest = λ l a b p q. cc;
})

read_loop-Agrees :
    (c : Connection) (line buffer : Bytes) (es : List Event)
    → IsSteady es
    → c.desynchronised ≡ false
    → Agrees c
        (line ++ (buffer ++ flat es))
        (prepend line (find_newline (buffer ++ flat es)))
        (read_loop c line buffer es)
unfolding read_loop
read_loop-Agrees c line buffer [] st d =
    rw (find_newline-append buffer [], ← append_assoc)
      (round-Agrees c line buffer [] _ st d (closed-Agrees c (line ++ buffer) d)
        (find_newline buffer) refl)
read_loop-Agrees c line buffer (chunk [] ∷ es) st d = absurd st
read_loop-Agrees c line buffer (fault kind ∷ es) st d = absurd st
read_loop-Agrees c line buffer (chunk (b ∷ bs) ∷ es) st d =
    rw (find_newline-append buffer (b ∷ (bs ++ flat es)), ← append_assoc)
      (round-Agrees c line buffer (chunk (b ∷ bs) ∷ es) _ st d
        (λ fits. read_loop-Agrees c (line ++ buffer) (b ∷ bs) es st d) (find_newline buffer) refl)

read_stream-Agrees :
    (c : Connection)
    → IsSteady c.events
    → c.desynchronised ≡ false
    → Agrees c (unread c) (find_newline (unread c)) (read_line c)
unfolding read_line
read_stream-Agrees c st d =
    simp d (rw prepend-nil at (read_loop-Agrees c [] c.buffer c.events st d))

line_of-crlf :
    (limit : ℕ) (s p rest : Bytes)
    → line_of limit s (some (p ++ b'\r' ∷ [], rest))
      ≡ (if ltb limit (length p + 1) then err (line_too_long limit) else ok p)
unfolding line_of
line_of-crlf limit s p rest = rw (length-append p (b'\r' ∷ []), strip_cr-append) refl

-- If no read fails and none is empty, then reading a line depends on the octets of the stream and
-- not on the buffers in which they arrive: the result is `line_of` of them, what is left behind a
-- line is what stands behind its LF, and exactly the errors lose the connection. The limit counts
-- the CR: of a line that ends in CRLF, `line_of` is the text in front of the CRLF if one octet more
-- than that text is within the limit, and otherwise the error of too long a line.
pub read_line-Agrees :
    (c : Connection)
    → IsSteady c.events
    → c.desynchronised ≡ false
    → Agrees c (unread c) (find_newline (unread c)) (read_line c)
      × ((p rest : Bytes)
          → line_of c.limits.max_line_len (unread c) (some (p ++ b'\r' ∷ [], rest)) ≡ (
              if ltb c.limits.max_line_len (length p + 1)
              then err (line_too_long c.limits.max_line_len)
              else ok p))
read_line-Agrees c st d = (read_stream-Agrees c st d, line_of-crlf c.limits.max_line_len (unread c))

line_of_sent :
    (limit : ℕ) (s p rest : Bytes)
    → length p + 1 ≤ limit
    → line_of limit s (some (p ++ b'\r' ∷ [], rest)) ≡ ok p
line_of_sent limit s p rest fits =
    let short : ltb limit (length p + 1) ≡ false = ground arith in rw (line_of-crlf, short) refl

-- A line that fits is read as it was sent, and the octets behind it are left.
pub read_line_sent :
    (c : Connection) (p rest : Bytes)
    → IsSteady c.events
    → c.desynchronised ≡ false
    → unread c ≡ p ++ (b'\r' ∷ b'\n' ∷ rest)
    → Lacks b'\n' p
    → length p + 1 ≤ c.limits.max_line_len
    → (c' : Connection) × (read_line c ≡ (ok p, c'))
      × (unread c' ≡ rest)
      × (c'.limits ≡ c.limits)
      × (c'.desynchronised ≡ false)
      × IsSteady c'.events
read_line_sent c p rest st d u h fits =
    let found : find_newline (unread c) ≡ some (p ++ b'\r' ∷ [], rest) =
      ap find_newline u ∙ find_sent p rest h in
    let reads = read_stream-Agrees c st d in
    let line : (read_line c).0 ≡ ok p =
      reads.result
      ∙ ap (line_of c.limits.max_line_len (unread c)) found
      ∙ line_of_sent c.limits.max_line_len (unread c) p rest fits in
    (
      (read_line c).1,
      (λ i. (line i, (read_line c).1)),
      reads.rest p _ rest line found,
      reads.limits,
      reads.lost ∙ ap is_err line,
      reads.steady,
    )
