-- ===== src/Proto/Command/Total.antt =====
-- Which commands of crates/nntp-proto/src/command.rs fit on a line, by the bounds of their arguments.
use rust_nntp.Prelude.Decimal.{to_string}
use rust_nntp.Prelude.Text.{Bytes, codes, within}
use rust_nntp.Prelude.{
  ℕ, ◌+◌, ◌≤◌, true, false, Option, none, some, [], ◌∷◌, ◌++◌, ◌≡◌, refl, arith, length, all, leb,
  any, All,
}
use rust_nntp.Proto.Command.{
  newgroups_format, Command, ListKeyword, active, active_times, newsgroups, overview_fmt, headers,
  keyword, wildmat, capabilities, mode_reader, quit, start_tls, auth_info_user, auth_info_pass,
  group, list_group, last, next, article, head, body, stat, date, help, new_groups, list, over,
  x_over, hdr, x_hdr, post, is_ascii_control, finish, assemble, to_wire, with_optional_arg,
  list_group_arg, field_command,
}
use rust_nntp.Proto.Error.{Result, ok}
use rust_nntp.Proto.Names.Encodable.{
  IsEncodable, IsEncodable-append, parse_group_name-IsEncodable, parse_wildmat-IsEncodable,
  parse_message_id-IsEncodable, parse_header_name-IsEncodable, to_string-IsEncodable,
  printable-IsEncodable,
}
use rust_nntp.Proto.Names.{parse_message_id, parse_group_name, parse_wildmat, parse_header_name}
use rust_nntp.Proto.Spec.{
  ArticleSpec, message_id, number, current, article_argument, Range, single, between, from,
  range_argument, RangeOrId, range, by_id, at_current, target_argument,
}
use rust_nntp.Proto.Utf8.{utf8}
use mathlib.Core.Option.{some-injective}

-- The text is one that `parse` returned.
abbrev pub IsAccepted : (Bytes → Result Bytes) → Bytes → Type 0
IsAccepted parse s = (v : Bytes) × (parse v ≡ ok s)

abbrev pub IsValidArg : (Bytes → Result Bytes) → Option Bytes → Type 0
IsValidArg parse none = Unit
IsValidArg parse (some s) = IsAccepted parse s

abbrev pub IsValidSpec : ArticleSpec → Type 0
IsValidSpec (message_id id) = IsAccepted parse_message_id id
IsValidSpec (number n) = Unit
IsValidSpec current = Unit

abbrev pub IsValidTarget : RangeOrId → Type 0
IsValidTarget (range r) = Unit
IsValidTarget (by_id id) = IsAccepted parse_message_id id
IsValidTarget at_current = Unit

abbrev pub IsText : ℕ → Option Bytes → Type 0
IsText k none = Unit
IsText k (some s) = IsEncodable k s

-- What the arguments of a command have to be for its line to fit: what `parse` returned, and where
-- that is not enough a bound. A header name, the group of a LISTGROUP with a range, and free texts
-- have bounds on their octets; a free text has no control octet.
abbrev pub IsFitting : {DateTime : Type 0} → Command DateTime → Type 0
IsFitting (capabilities w) = IsText 497 w
IsFitting (auth_info_user u) = IsEncodable 496 u
IsFitting (auth_info_pass p) = IsEncodable 496 p
IsFitting (group g) = IsAccepted parse_group_name g
IsFitting (list_group g none) = IsValidArg parse_group_name g
IsFitting (list_group none (some r)) = Unit
IsFitting (list_group (some g) (some r)) = IsAccepted parse_group_name g × (length (utf8 g) ≤ 458)
IsFitting (article spec) = IsValidSpec spec
IsFitting (head spec) = IsValidSpec spec
IsFitting (body spec) = IsValidSpec spec
IsFitting (stat spec) = IsValidSpec spec
IsFitting (list k) = IsValidArg parse_wildmat (wildmat k)
IsFitting (over target) = IsValidTarget target
IsFitting (hdr field target) =
    IsAccepted parse_header_name field × (length (utf8 field) ≤ 255) × IsValidTarget target
IsFitting (x_hdr field target) =
    IsAccepted parse_header_name field × (length (utf8 field) ≤ 254) × IsValidTarget target
IsFitting _ = Unit

no_controls : (s : Bytes) → All (λ b. is_ascii_control b ≡ false) s → any is_ascii_control s ≡ false
no_controls [] h = refl
no_controls (c ∷ s) (h, hs) = ground (arith, no_controls s hs)

finish-total :
    {DateTime : Type 0} (c : Command DateTime) (line : Bytes)
    → IsEncodable 510 line
    → (bytes : Bytes) × (finish c line ≡ ok bytes)
unfolding finish
finish-total c line h =
    (utf8 line ++ codes "\r\n", rw (no_controls (utf8 line) h.plain) (ground (arith, h.short)))

parsed-IsEncodable :
    (o : Option Bytes) (verb : Bytes) (j k : ℕ)
    → IsEncodable j verb
    → ((s : Bytes) → o ≡ some s → IsEncodable k s)
    → IsEncodable (j + (1 + k)) (with_optional_arg verb o)
unfolding with_optional_arg
parsed-IsEncodable none verb j k front h =
    IsEncodable-append j (1 + k) verb [] front (printable-IsEncodable (1 + k) [] tt (omega arith))
parsed-IsEncodable (some s) verb j k front h = IsEncodable-append j (1 + k) verb (b' ' ∷ s) front (
    IsEncodable-append 1 k (b' ' ∷ []) s
      (printable-IsEncodable 1 (b' ' ∷ []) ((omega arith, omega arith), tt) (omega arith))
      (h s refl))

widen : (j k : ℕ) (s : Bytes) → j ≤ k → IsEncodable j s → IsEncodable k s
widen j k s le h = record { plain = h.plain; short = omega (arith, le, h.short) }

pub printable : (s : Bytes) → all (within 32 126) s ≡ true → All (λ c. (32 ≤ c) × (c ≤ 126)) s
printable [] e = tt
printable (c ∷ s) e = ((ground arith, ground arith), printable s (ground arith))

-- The verbs are at most 24 printable octets.
verb : (s : Bytes) → all (within 32 126) s ≡ true → leb (length s) 24 ≡ true → IsEncodable 24 s
verb s e short = printable-IsEncodable 24 s (printable s e) (ground arith)

range_argument-IsEncodable : (r : Range) → IsEncodable 41 (range_argument r)
unfolding range_argument
range_argument-IsEncodable (single n) =
    widen 20 41 (to_string n) (omega arith) (to_string-IsEncodable n)
range_argument-IsEncodable (between low high) =
    IsEncodable-append 20 21 (to_string low) (b'-' ∷ to_string high) (to_string-IsEncodable low) (
      IsEncodable-append 1 20 (b'-' ∷ []) (to_string high)
        (printable-IsEncodable 1 (b'-' ∷ []) ((omega arith, omega arith), tt) (omega arith))
        (to_string-IsEncodable high))
range_argument-IsEncodable (from low) =
    IsEncodable-append 20 21 (to_string low) (b'-' ∷ []) (to_string-IsEncodable low)
      (printable-IsEncodable 21 (b'-' ∷ []) ((omega arith, omega arith), tt) (omega arith))

accepted_id : (s : Bytes) → IsAccepted parse_message_id s → IsEncodable 250 s
accepted_id s (v, e) = parse_message_id-IsEncodable v s e

accepted_group : (s : Bytes) → IsAccepted parse_group_name s → IsEncodable 480 s
accepted_group s (v, e) = parse_group_name-IsEncodable v s e

accepted_wildmat : (s : Bytes) → IsAccepted parse_wildmat s → IsEncodable 400 s
accepted_wildmat s (v, e) = parse_wildmat-IsEncodable v s e

spec-IsEncodable :
    (spec : ArticleSpec)
    → IsValidSpec spec
    → (s : Bytes) → article_argument spec ≡ some s
    → IsEncodable 250 s
unfolding article_argument
spec-IsEncodable (message_id id) v s e = rw (← some-injective _ _ e) (accepted_id id v)
spec-IsEncodable (number n) v s e =
    rw (← some-injective _ _ e) (widen 20 250 (to_string n) (omega arith) (to_string-IsEncodable n))
spec-IsEncodable current v s e = cc

target-IsEncodable :
    (t : RangeOrId) → IsValidTarget t → (s : Bytes) → target_argument t ≡ some s → IsEncodable 250 s
unfolding target_argument
target-IsEncodable (range r) v s e =
    rw (← some-injective _ _ e)
      (widen 41 250 (range_argument r) (omega arith) (range_argument-IsEncodable r))
target-IsEncodable (by_id id) v s e = rw (← some-injective _ _ e) (accepted_id id v)
target-IsEncodable at_current v s e = cc

wildmat-IsEncodable :
    (o : Option Bytes) → IsValidArg parse_wildmat o → (s : Bytes) → o ≡ some s → IsEncodable 400 s
wildmat-IsEncodable none v s e = cc
wildmat-IsEncodable (some w) v s e = rw (← some-injective _ _ e) (accepted_wildmat w v)

keyword-IsEncodable : (k : ListKeyword) → IsEncodable 24 (codes "LIST " ++ keyword k)
unfolding keyword
keyword-IsEncodable (active _) = verb _ refl refl
keyword-IsEncodable (active_times _) = verb _ refl refl
keyword-IsEncodable (newsgroups _) = verb _ refl refl
keyword-IsEncodable overview_fmt = verb _ refl refl
keyword-IsEncodable headers = verb _ refl refl

module _ {DateTime : Type 0} (format : DateTime → Bytes → Bytes)
    (short_date : (d : DateTime) → IsEncodable 510 (format d newgroups_format)) where
  by_verb :
      (o : Option Bytes) (s : Bytes)
      → all (within 32 126) s ≡ true
      → leb (length s) 24 ≡ true
      → (k : ℕ) → k ≤ 480
      → ((t : Bytes) → o ≡ some t → IsEncodable k t)
      → IsEncodable 510 (with_optional_arg s o)
  by_verb o s e n k le h =
      widen (24 + (1 + k)) 510 (with_optional_arg s o) (omega (arith, le))
        (parsed-IsEncodable o s 24 k (verb s e n) h)

  fixed : (s : Bytes) → all (within 32 126) s ≡ true → leb (length s) 24 ≡ true → IsEncodable 510 s
  fixed s e n = widen 24 510 s (omega arith) (verb s e n)

  blank : IsEncodable 1 (b' ' ∷ [])
  blank = printable-IsEncodable 1 (b' ' ∷ []) ((omega arith, omega arith), tt) (omega arith)

  text : (o : Option Bytes) → IsText 497 o → (s : Bytes) → o ≡ some s → IsEncodable 497 s
  text none v s e = cc
  text (some w) v s e = rw (← some-injective w s e) v

  assemble-IsEncodable : (c : Command DateTime) → IsFitting c → IsEncodable 510 (assemble format c)
  unfolding assemble list_group_arg with_optional_arg field_command
  assemble-IsEncodable (capabilities w) v =
      parsed-IsEncodable w (codes "CAPABILITIES") 12 497
        (printable-IsEncodable 12 (codes "CAPABILITIES") (printable (codes "CAPABILITIES") refl)
          (omega arith))
        (text w v)
  assemble-IsEncodable mode_reader v = fixed _ refl refl
  assemble-IsEncodable quit v = fixed _ refl refl
  assemble-IsEncodable start_tls v = fixed _ refl refl
  assemble-IsEncodable (auth_info_user u) v =
      IsEncodable-append 14 496 (codes "AUTHINFO USER ") u
        (printable-IsEncodable 14 (codes "AUTHINFO USER ") (printable (codes "AUTHINFO USER ") refl)
          (omega arith))
        v
  assemble-IsEncodable (auth_info_pass p) v =
      IsEncodable-append 14 496 (codes "AUTHINFO PASS ") p
        (printable-IsEncodable 14 (codes "AUTHINFO PASS ") (printable (codes "AUTHINFO PASS ") refl)
          (omega arith))
        v
  assemble-IsEncodable (group g) v = widen 504 510 (codes "GROUP " ++ g) (omega arith) (
      IsEncodable-append 24 480 (codes "GROUP ") g (verb (codes "GROUP ") refl refl)
        (accepted_group g v))
  assemble-IsEncodable (list_group none none) v = fixed _ refl refl
  assemble-IsEncodable (list_group (some g) none) v =
      widen 504 510 (codes "LISTGROUP " ++ g) (omega arith) (
        IsEncodable-append 24 480 (codes "LISTGROUP ") g (verb (codes "LISTGROUP ") refl refl)
          (accepted_group g v))
  assemble-IsEncodable (list_group none (some r)) v = fixed _ refl refl
  assemble-IsEncodable (list_group (some g) (some r)) ((u, e), short) =
      IsEncodable-append 10 500 (codes "LISTGROUP ") (g ++ (b' ' ∷ range_argument r))
        (printable-IsEncodable 10 (codes "LISTGROUP ") (printable (codes "LISTGROUP ") refl)
          (omega arith))
        (IsEncodable-append 458 42 g (b' ' ∷ range_argument r)
          (record { plain = (parse_group_name-IsEncodable u g e).plain; short = short })
          (IsEncodable-append 1 41 (b' ' ∷ []) (range_argument r) blank
            (range_argument-IsEncodable r)))
  assemble-IsEncodable last v = fixed _ refl refl
  assemble-IsEncodable next v = fixed _ refl refl
  assemble-IsEncodable (article s) v =
      by_verb _ (codes "ARTICLE") refl refl 250 (omega arith) (spec-IsEncodable s v)
  assemble-IsEncodable (head s) v =
      by_verb _ (codes "HEAD") refl refl 250 (omega arith) (spec-IsEncodable s v)
  assemble-IsEncodable (body s) v =
      by_verb _ (codes "BODY") refl refl 250 (omega arith) (spec-IsEncodable s v)
  assemble-IsEncodable (stat s) v =
      by_verb _ (codes "STAT") refl refl 250 (omega arith) (spec-IsEncodable s v)
  assemble-IsEncodable date v = fixed _ refl refl
  assemble-IsEncodable help v = fixed _ refl refl
  assemble-IsEncodable (new_groups d) v = short_date d
  assemble-IsEncodable (list k) v = widen 425 510 _ (omega arith) (
      parsed-IsEncodable (wildmat k) _ 24 400 (keyword-IsEncodable k)
        (wildmat-IsEncodable (wildmat k) v))
  assemble-IsEncodable (over t) v =
      by_verb _ (codes "OVER") refl refl 250 (omega arith) (target-IsEncodable t v)
  assemble-IsEncodable (x_over r) v =
      widen 65 510 (codes "XOVER " ++ range_argument r) (omega arith) (
        IsEncodable-append 24 41 (codes "XOVER ") (range_argument r)
          (verb (codes "XOVER ") refl refl) (range_argument-IsEncodable r))
  assemble-IsEncodable (hdr f t) ((u, e), short, v) =
      IsEncodable-append 4 506 (codes "HDR ") (with_optional_arg f (target_argument t))
        (printable-IsEncodable 4 (codes "HDR ") (printable (codes "HDR ") refl) (omega arith))
        (parsed-IsEncodable (target_argument t) f 255 250
          (parse_header_name-IsEncodable u f 255 e short) (target-IsEncodable t v))
  assemble-IsEncodable (x_hdr f t) ((u, e), short, v) =
      IsEncodable-append 5 505 (codes "XHDR ") (with_optional_arg f (target_argument t))
        (printable-IsEncodable 5 (codes "XHDR ") (printable (codes "XHDR ") refl) (omega arith))
        (parsed-IsEncodable (target_argument t) f 254 250
          (parse_header_name-IsEncodable u f 254 e short) (target-IsEncodable t v))
  assemble-IsEncodable post v = fixed _ refl refl

-- If the formatter of dates writes at most 510 octets, none of them a control octet, then a command
-- is encoded without an error when its arguments are numbers, ranges, and group names, message ids,
-- wildmats and header names that `parse` returned, and these keep to the following bounds, since
-- `parse` alone does not make them fit: the header name of HDR has at most 255 octets and that of
-- XHDR at most 254, the group of a LISTGROUP with a range has at most 458, and the free texts of
-- CAPABILITIES and AUTHINFO have at most 497 and 496 octets and no control octet among them.
pub to_wire-total :
    {DateTime : Type 0} (format : DateTime → Bytes → Bytes) (c : Command DateTime)
    → ((d : DateTime) → IsEncodable 510 (format d newgroups_format))
    → IsFitting c
    → (bytes : Bytes) × (to_wire format c ≡ ok bytes)
unfolding to_wire
to_wire-total format c short_date v =
    finish-total c (assemble format c) (assemble-IsEncodable format short_date c v)
