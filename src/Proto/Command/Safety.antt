-- ===== src/Proto/Command/Safety.antt =====
-- What `to_wire` of crates/nntp-proto/src/command.rs lets onto the wire.
use rust_nntp.Prelude.Text.{Bytes, codes}
use rust_nntp.Prelude.Text.Laws.{Lacks}
use rust_nntp.Prelude.{
  ℕ, ◌+◌, ◌≤◌, false, List, [], ◌∷◌, ◌++◌, ◌≡◌, inl, inr, refl, ap, sym, ◌∙◌, arith, ltb,
  Bool-cases, length, length-append, any, All,
}
use rust_nntp.Proto.Block.{split_lines, split_onto, last_line}
use rust_nntp.Proto.Block.Stuffing.{split_lines-line}
use rust_nntp.Proto.Command.{
  newgroups_format, Command, name, is_ascii_control, finish, assemble, to_wire, with_optional_arg,
  field_command, list_group, list_group_arg, new_groups,
}
use rust_nntp.Proto.Error.{ok}
use rust_nntp.Proto.Utf8.{utf8, utf8-append}

abbrev pub IsPlain : ℕ → Type 0
IsPlain b = is_ascii_control b ≡ false

any-IsPlain : (s : Bytes) → any is_ascii_control s ≡ false → All IsPlain s
any-IsPlain [] e = tt
any-IsPlain (c ∷ s) e = (ground arith, any-IsPlain s (ground arith))

plain-Lacks : (s : Bytes) → All IsPlain s → Lacks b'\n' s
unfolding is_ascii_control
plain-Lacks [] h = tt
plain-Lacks (c ∷ s) (h, hs) = (ground arith, plain-Lacks s hs)

-- The octets of the line end the wire line, and it is one line.
pub finish_lem :
    {DateTime : Type 0} (c : Command DateTime) (line bytes : Bytes)
    → finish c line ≡ ok bytes
    → (bytes ≡ utf8 line ++ codes "\r\n")
      × All IsPlain (utf8 line)
      × (length bytes ≤ 512)
      × (split_lines bytes ≡ utf8 line ∷ [])
unfolding finish
finish_lem c line bytes e = elim (Bool-cases (any is_ascii_control (utf8 line))) [
  | inl bad ↦ cc (rw bad at e)
  | inr good ↦ elim (Bool-cases (ltb 512 (length (utf8 line) + 2))) [
    | inl long ↦ cc (rw (good, long) at e)
    | inr fits ↦
        let plain = any-IsPlain (utf8 line) good in
        let whole : utf8 line ++ codes "\r\n" ≡ bytes = ground arith in
        (
          sym whole,
          plain,
          omega (arith, ap length whole, length-append (utf8 line) (codes "\r\n"), short fits),
          ap split_lines (sym whole)
              ∙ split_lines-line (utf8 line) [] (plain-Lacks (utf8 line) plain)
              ∙ no_more,
        )
  ]
]
  where
    short : ltb 512 (length (utf8 line) + 2) ≡ false → length (utf8 line) + 2 ≤ 512
    short h = ground arith

    no_more : ◌≡◌ {A = List Bytes} (utf8 line ∷ split_lines []) (utf8 line ∷ [])
    no_more = unfold split_lines split_onto last_line in refl

-- `assemble` puts the name of the command in front, if the formatter of dates does.
assemble-name :
    {DateTime : Type 0} (format : DateTime → Bytes → Bytes) (c : Command DateTime)
    → ((d : DateTime) → (rest : Bytes) × (format d newgroups_format ≡ codes "NEWGROUPS" ++ rest))
    → (rest : Bytes) × (assemble format c ≡ name c ++ rest)
unfolding assemble name with_optional_arg field_command
assemble-name format (new_groups d) h = h d
assemble-name format (list_group g r) h = (list_group_arg g r, refl)
assemble-name format _ h = (_, refl)

-- If the formatter of dates writes the keyword first, then what `to_wire` returns is the line of
-- the command, without a control octet, and CRLF behind it; it is at most 512 octets, the peer
-- splits it into that one line, and the line starts with the name of the command.
pub to_wire_lem :
    {DateTime : Type 0} (format : DateTime → Bytes → Bytes) (c : Command DateTime) (bytes : Bytes)
    → ((d : DateTime) → (rest : Bytes) × (format d newgroups_format ≡ codes "NEWGROUPS" ++ rest))
    → to_wire format c ≡ ok bytes
    → (line : Bytes) × (bytes ≡ line ++ codes "\r\n")
      × All IsPlain line
      × (length bytes ≤ 512)
      × (split_lines bytes ≡ line ∷ [])
      × ((rest : Bytes) × (line ≡ utf8 (name c) ++ rest))
unfolding to_wire
to_wire_lem format c bytes h e =
    let (whole, plain, short, one) = finish_lem c (assemble format c) bytes e in
    let (rest, front) = assemble-name format c h in
    (
      utf8 (assemble format c),
      whole,
      plain,
      short,
      one,
      (utf8 rest, ap utf8 front ∙ utf8-append (name c) rest),
    )
