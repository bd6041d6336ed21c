-- ===== src/Client/Connection/Bounds.antt =====
-- Termination and limits of `read_block_streaming`, crates/nntp-client/src/connection.rs, over any
-- stream: failing reads, missing terminators and endless lines included.
use rust_nntp.Client.Connection.{
  Limits, ClientError, Result, ok, err, Event, chunk, fault, Connection, complete_line, round,
  read_loop, read_line, size_of_events, Streamed, over_limit, take_line, pass_line, block_loop,
  read_block_streaming,
}
use rust_nntp.Prelude.Text.{Bytes}
use rust_nntp.Prelude.{
  ℕ, zero, suc, ◌+◌, ◌≤◌, ◌<◌, Bool, Option, none, some, List, [], ◌∷◌, ◌++◌, ◌≡◌, refl, sym, ap,
  ◌∙◌, arith, ltb, ◌==◌, Bool-cases, inl, inr, length, length-append,
}
use rust_nntp.Proto.Block.{is_terminator, unstuff, find_newline, prepend, byte_len_of}

abbrev size : Connection → ℕ
size c = length c.buffer + size_of_events c.events

find_newline-length :
    (s h t : Bytes) → find_newline s ≡ some (h, t) → length h + 1 + length t ≡ length s
unfolding find_newline
find_newline-length [] h t e = cc
find_newline-length (c ∷ s) h t e = elim (Bool-cases (c == b'\n')) [
  | inl at ↦ here (rw at at e)
  | inr past ↦ later (find_newline s) (rw past at e) (find_newline-length s)
]
  where
    here :
        ◌≡◌ {A = Option (Bytes × Bytes)} (some ([], s)) (some (h, t))
        → length h + 1 + length t ≡ suc (length s)
    here q = ground arith

    later :
        (o : Option (Bytes × Bytes))
        → prepend (c ∷ []) o ≡ some (h, t)
        → ((h' t' : Bytes) → o ≡ some (h', t') → length h' + 1 + length t' ≡ length s)
        → length h + 1 + length t ≡ suc (length s)
    later none q ih = cc
    later (some (a, b)) q ih = ground (arith, ih a b refl)

-- A line costs one octet of the stream at least, and the limits stay.
record Consumes (c : Connection) (n : ℕ) (r : Result Bytes × Connection) : Type 0 where
  limits : r.1.limits ≡ c.limits
  less : (line : Bytes) → r.0 ≡ ok line → size r.1 < n

Consumes-weaken :
    (c : Connection) (n m : ℕ) (r : Result Bytes × Connection)
    → n ≤ m
    → Consumes c n r
    → Consumes c m r
Consumes-weaken c n m r h k = record {
  limits = k.limits;
  less = λ line e. omega (arith, k.less line e);
}

Consumes-err :
    (c : Connection) (n : ℕ) (e : ClientError) (d : Connection)
    → d.limits ≡ c.limits
    → Consumes c n (err e, d)
Consumes-err c n e d h = record { limits = h; less = λ line q. cc }

complete_line-Consumes :
    (c : Connection) (n : ℕ) (line h t : Bytes) (es : List Event)
    → length t + size_of_events es < n
    → Consumes c n (complete_line (record c { buffer = t; events = es }) (line ++ h))
unfolding complete_line
complete_line-Consumes c n line h t es less =
    elim (Bool-cases (ltb c.limits.max_line_len (length (line ++ h)))) [
      | inl e ↦ rw e (Consumes-err c n _ _ refl)
      | inr e ↦ rw e (record { limits = refl; less = λ l q. less })
    ]

round-Consumes :
    (c : Connection) (line buffer : Bytes) (es : List Event) (more : Result Bytes × Connection)
    → Consumes c (length buffer + size_of_events es) more
    → (f : Option (Bytes × Bytes)) → find_newline buffer ≡ f
    → Consumes c (length buffer + size_of_events es) (round c line buffer es more)
unfolding round
round-Consumes c line buffer es more k (some (h, t)) e =
    rw (e, round)
      (complete_line-Consumes c _ line h t es (omega (arith, find_newline-length buffer h t e)))
round-Consumes c line buffer es more k none e =
    rw (e, round)
      (elim (Bool-cases (ltb c.limits.max_line_len (length (line ++ buffer)))) [
        | inl long ↦ rw long (Consumes-err c _ _ _ refl)
        | inr fits ↦ rw fits k
      ])

read_loop-Consumes :
    (c : Connection) (line buffer : Bytes) (es : List Event)
    → Consumes c (length buffer + size_of_events es) (read_loop c line buffer es)
unfolding read_loop
read_loop-Consumes c line buffer [] =
    round-Consumes c line buffer [] _ (Consumes-err c _ _ _ refl) (find_newline buffer) refl
read_loop-Consumes c line buffer (fault kind ∷ es) =
    round-Consumes c line buffer (fault kind ∷ es) _ (Consumes-err c _ _ _ refl)
      (find_newline buffer) refl
read_loop-Consumes c line buffer (chunk [] ∷ es) =
    round-Consumes c line buffer (chunk [] ∷ es) _ (Consumes-err c _ _ _ refl) (find_newline buffer)
      refl
read_loop-Consumes c line buffer (chunk (b ∷ bs) ∷ es) =
    round-Consumes c line buffer (chunk (b ∷ bs) ∷ es) _
      (Consumes-weaken c (length (b ∷ bs) + size_of_events es) _ _
        (unfold size_of_events in omega arith) (read_loop-Consumes c (line ++ buffer) (b ∷ bs) es))
      (find_newline buffer) refl

read_line-Consumes : (c : Connection) → Consumes c (size c) (read_line c)
unfolding read_line
read_line-Consumes c = elim (Bool-cases c.desynchronised) [
  | inl e ↦ simp e (Consumes-err c _ _ _ refl)
  | inr e ↦ simp e (read_loop-Consumes c [] c.buffer c.events)
]

length-unstuff : (line : Bytes) → length (unstuff line) ≤ length line
unfolding unstuff
length-unstuff [] = omega arith
length-unstuff (c ∷ s) = ground arith

byte_len_of-append :
    (xs : List Bytes) (y : Bytes) → byte_len_of (xs ++ y ∷ []) ≡ byte_len_of xs + length y
unfolding byte_len_of
byte_len_of-append [] y = omega arith
byte_len_of-append (x ∷ xs) y = omega (arith, byte_len_of-append xs y)

-- A read of a block that has come to an end within the limits.
pub record Ends (l : Limits) (o : Option Streamed) : Type 0 where
  pub streamed : Streamed
  pub ends : o ≡ some streamed
  pub count : length streamed.passed ≤ l.max_block_lines
  pub octets : byte_len_of streamed.passed ≤ l.max_block_bytes
  pub returned : (n : ℕ) → streamed.result ≡ ok n → n ≡ length streamed.passed

-- The counters agree with what has been passed on, and are within the limits.
record Counted (l : Limits) (lines bytes : ℕ) (passed : List Bytes) : Type 0 where
  lines_is : lines ≡ length passed
  bytes_is : byte_len_of passed ≤ bytes
  count : lines ≤ l.max_block_lines
  octets : bytes ≤ l.max_block_bytes

stop :
    (l : Limits) (lines bytes : ℕ) (passed : List Bytes) (r : Result ℕ) (c : Connection)
    → Counted l lines bytes passed
    → ((n : ℕ) → r ≡ ok n → n ≡ lines)
    → Ends l (some (record { passed = passed; result = r; left = c }))
stop l lines bytes passed r c k h = record {
  streamed = record { passed = passed; result = r; left = c };
  ends = refl;
  count = omega (arith, k.lines_is, k.count);
  octets = omega (arith, k.bytes_is, k.octets);
  returned = λ n e. h n e ∙ k.lines_is;
}

-- The read of a block that fails has passed on what was counted before.
stopped_short :
    (l : Limits) (lines bytes : ℕ) (passed : List Bytes) (r : Result ℕ) (c : Connection)
    → Counted l lines bytes passed
    → ((n : ℕ) → r ≡ ok n → ⊥)
    → Ends l (some (record { passed = passed; result = r; left = c }))
stopped_short l lines bytes passed r c k h = stop l lines bytes passed r c k (λ n e. absurd (h n e))

Counted-cons :
    (l : Limits) (lines bytes : ℕ) (passed : List Bytes) (line : Bytes)
    → Counted l lines bytes passed
    → over_limit l (lines + 1) (bytes + length line) ≡ none
    → Counted l (lines + 1) (bytes + length line) (passed ++ unstuff line ∷ [])
unfolding over_limit
Counted-cons l lines bytes passed line k fits = record {
  lines_is = omega (arith, k.lines_is, length-append passed (unstuff line ∷ []));
  bytes_is =
      omega (arith, k.bytes_is, byte_len_of-append passed (unstuff line), length-unstuff line);
  count = ground arith;
  octets = ground arith;
}

abbrev Continues : Limits → ℕ → (ℕ → ℕ → List Bytes → Connection → Option Streamed) → Type 0
Continues l n more =
    (lines bytes : ℕ) (passed : List Bytes) (c : Connection)
    → size c < n
    → c.limits ≡ l
    → Counted l lines bytes passed
    → Ends l (more lines bytes passed c)

pass_line-Ends :
    (l : Limits) (n lines bytes : ℕ) (passed : List Bytes) (line : Bytes) (c : Connection)
    (more : ℕ → ℕ → List Bytes → Connection → Option Streamed) (o : Option ℕ)
    → size c < n
    → c.limits ≡ l
    → Counted l lines bytes passed
    → Continues l n more
    → over_limit c.limits (lines + 1) (bytes + length line) ≡ o
    → Ends l (pass_line more (lines + 1) (bytes + length line) passed line c o)
unfolding pass_line
pass_line-Ends l n lines bytes passed line c more none less lim count continue e =
    continue _ _ _ c less lim (
      Counted-cons l lines bytes passed line count
        (ap (λ (m : Limits). over_limit m (lines + 1) (bytes + length line)) (sym lim) ∙ e))
pass_line-Ends l n lines bytes passed line c more (some x) less lim count continue e =
    stopped_short l lines bytes passed _ _ count (λ m q. cc)

take_line-Ends :
    (l : Limits) (n lines bytes : ℕ) (passed : List Bytes) (c : Connection)
    (more : ℕ → ℕ → List Bytes → Connection → Option Streamed) (r : Result Bytes × Connection)
    → Consumes c n r
    → c.limits ≡ l
    → Counted l lines bytes passed
    → Continues l n more
    → Ends l (take_line more lines bytes passed r)
unfolding take_line
take_line-Ends l n lines bytes passed c more (err e, c') k lim count continue =
    stop l lines bytes passed (err e) c' count (λ m q. cc)
take_line-Ends l n lines bytes passed c more (ok line, c') k lim count continue =
    elim (Bool-cases (is_terminator line)) [
      | inl end ↦ rw end (stop l lines bytes passed (ok lines) c' count (λ m q. ground arith))
      | inr on ↦ rw on (
          pass_line-Ends l n lines bytes passed line c' more _ (k.less line refl) (k.limits ∙ lim)
            count continue refl)
    ]

block_loop-Ends :
    (fuel : ℕ) (flag : ℕ → Bool) (l : Limits) → Continues l fuel (block_loop fuel flag)
unfolding block_loop
block_loop-Ends zero flag l lines bytes passed c less lim count = absurd (omega arith)
block_loop-Ends (suc fuel) flag l lines bytes passed c less lim count =
    elim (Bool-cases (flag lines)) [
      | inl e ↦ rw e (stop l lines bytes passed _ _ count (λ m q. cc))
      | inr e ↦ rw e (
          take_line-Ends l (size c) lines bytes passed c (block_loop fuel flag) (read_line c)
            (read_line-Consumes c) lim count
            (λ ls bs ps d small. block_loop-Ends fuel flag l ls bs ps d (omega arith)))
    ]

-- Over any stream a read of a block comes to an end, and what it has passed on, whether it then
-- returns or fails, keeps to the limits on lines and octets; the count that it returns is that of
-- the lines.
pub read_block_streaming-Ends :
    (flag : ℕ → Bool) (c : Connection) → Ends c.limits (read_block_streaming flag c)
unfolding read_block_streaming byte_len_of
read_block_streaming-Ends flag c =
    block_loop-Ends _ flag c.limits 0 0 [] c (omega arith) refl (record {
      lines_is = refl;
      bytes_is = omega arith;
      count = omega arith;
      octets = omega arith;
    })
