-- ===== src/Proto/Command.antt =====
-- crates/nntp-proto/src/command.rs: the commands and their encoding. A `String` is the list of its
-- code points. The date of NEWGROUPS is chrono's `DateTime<Utc>`: its type and its `format`, which
-- takes the pattern, are parameters.
pub mod Log
pub mod Safety
pub mod Total
use rust_nntp.Prelude.Text.{Bytes, codes}
use rust_nntp.Prelude.{
  ℕ, ◌+◌, Bool, true, false, ◌||◌, Option, none, some, List, [], ◌∷◌, ◌++◌, ltb, leb, ◌==◌,
  if◌then◌else◌, length, any,
}
use rust_nntp.Proto.Error.{Result, ok, err, illegal_command_argument, command_too_long}
use rust_nntp.Proto.Spec.{
  ArticleSpec, article_argument, Range, range_argument, RangeOrId, target_argument,
}
use rust_nntp.Proto.Utf8.Lossy.{lossy}
use rust_nntp.Proto.Utf8.{utf8}

abbrev pub max_command_len : ℕ
max_command_len = 512

-- The wildmats are those that `Wildmat::parse` accepts (Proto/Names).
pub data ListKeyword : Type 0 where
  active active_times newsgroups : Option Bytes → ListKeyword
  overview_fmt headers : ListKeyword

unfoldable pub keyword : ListKeyword → Bytes
keyword (active _) = codes "ACTIVE"
keyword (active_times _) = codes "ACTIVE.TIMES"
keyword (newsgroups _) = codes "NEWSGROUPS"
keyword overview_fmt = codes "OVERVIEW.FMT"
keyword headers = codes "HEADERS"

unfoldable pub wildmat : ListKeyword → Option Bytes
wildmat (active w) = w
wildmat (active_times w) = w
wildmat (newsgroups w) = w
wildmat overview_fmt = none
wildmat headers = none

pub data Command (DateTime : Type 0) : Type 0 where
  capabilities : Option Bytes → Command DateTime
  mode_reader quit start_tls : Command DateTime
  auth_info_user auth_info_pass : Bytes → Command DateTime
  group : Bytes → Command DateTime
  list_group : Option Bytes → Option Range → Command DateTime
  last next : Command DateTime
  article head body stat : ArticleSpec → Command DateTime
  date help : Command DateTime
  new_groups : DateTime → Command DateTime
  list : ListKeyword → Command DateTime
  over : RangeOrId → Command DateTime
  x_over : Range → Command DateTime
  hdr : Bytes → RangeOrId → Command DateTime
  post : Command DateTime
  x_hdr : Bytes → RangeOrId → Command DateTime

-- The pattern of NEWGROUPS
abbrev pub newgroups_format : Bytes
newgroups_format = codes "NEWGROUPS %Y%m%d %H%M%S GMT"

-- A space and the argument, if there is one.
abbrev pub optional_arg : Option Bytes → Bytes
optional_arg none = []
optional_arg (some arg) = b' ' ∷ arg

-- `push_with_optional_arg`, onto an empty line
unfoldable pub with_optional_arg : Bytes → Option Bytes → Bytes
with_optional_arg verb arg = verb ++ optional_arg arg

-- `push_field_command`, onto an empty line
unfoldable pub field_command : Bytes → Bytes → RangeOrId → Bytes
field_command verb field target = verb ++ (b' ' ∷ (field ++ optional_arg (target_argument target)))

-- `u8::is_ascii_control`
unfoldable pub is_ascii_control : ℕ → Bool
is_ascii_control b = leb b 31 || b == 127

-- The range of LISTGROUP is written behind a group only.
unfoldable pub list_group_arg : Option Bytes → Option Range → Bytes
list_group_arg none range = []
list_group_arg (some g) none = b' ' ∷ g
list_group_arg (some g) (some r) = b' ' ∷ (g ++ (b' ' ∷ range_argument r))

module _ {DateTime : Type 0} where
  unfoldable pub name : Command DateTime → Bytes
  name (capabilities _) = codes "CAPABILITIES"
  name mode_reader = codes "MODE READER"
  name quit = codes "QUIT"
  name start_tls = codes "STARTTLS"
  name (auth_info_user _) = codes "AUTHINFO USER"
  name (auth_info_pass _) = codes "AUTHINFO PASS"
  name (group _) = codes "GROUP"
  name (list_group _ _) = codes "LISTGROUP"
  name last = codes "LAST"
  name next = codes "NEXT"
  name (article _) = codes "ARTICLE"
  name (head _) = codes "HEAD"
  name (body _) = codes "BODY"
  name (stat _) = codes "STAT"
  name date = codes "DATE"
  name help = codes "HELP"
  name (new_groups _) = codes "NEWGROUPS"
  name (list _) = codes "LIST"
  name (over _) = codes "OVER"
  name (x_over _) = codes "XOVER"
  name (hdr _ _) = codes "HDR"
  name (x_hdr _ _) = codes "XHDR"
  name post = codes "POST"

  unfoldable pub expects_data_block : Command DateTime → Bool
  expects_data_block mode_reader = false
  expects_data_block quit = false
  expects_data_block start_tls = false
  expects_data_block (auth_info_user _) = false
  expects_data_block (auth_info_pass _) = false
  expects_data_block (group _) = false
  expects_data_block last = false
  expects_data_block next = false
  expects_data_block (stat _) = false
  expects_data_block post = false
  expects_data_block date = false
  expects_data_block _ = true

  unfoldable pub is_sensitive : Command DateTime → Bool
  is_sensitive (auth_info_pass _) = true
  is_sensitive _ = false

  -- The octets of a line that has been accepted.
  unfoldable pub finish : Command DateTime → Bytes → Result Bytes
  finish c line =
      if any is_ascii_control (utf8 line)
      then err (illegal_command_argument (name c))
      else if ltb max_command_len (length (utf8 line) + 2)
      then err (command_too_long (name c) (length (utf8 line) + 2))
      else ok (utf8 line ++ codes "\r\n")

-- `trim_end_matches(['\r', '\n'])`
unfoldable pub trim_line_end : Bytes → Bytes
trim_line_end [] = []
trim_line_end (c ∷ s) = elim (trim_line_end s) [
  | [] ↦ if c == b'\r' || c == b'\n' then [] else c ∷ []
  | d ∷ t ↦ c ∷ d ∷ t
]

module _ {DateTime : Type 0} (format : DateTime → Bytes → Bytes) where
  -- The line that `to_wire` assembles.
  unfoldable pub assemble : Command DateTime → Bytes
  assemble (capabilities w) = with_optional_arg (codes "CAPABILITIES") w
  assemble mode_reader = codes "MODE READER"
  assemble quit = codes "QUIT"
  assemble start_tls = codes "STARTTLS"
  assemble (auth_info_user user) = codes "AUTHINFO USER " ++ user
  assemble (auth_info_pass pass) = codes "AUTHINFO PASS " ++ pass
  assemble (group g) = codes "GROUP " ++ g
  assemble (list_group g r) = codes "LISTGROUP" ++ list_group_arg g r
  assemble last = codes "LAST"
  assemble next = codes "NEXT"
  assemble (article spec) = with_optional_arg (codes "ARTICLE") (article_argument spec)
  assemble (head spec) = with_optional_arg (codes "HEAD") (article_argument spec)
  assemble (body spec) = with_optional_arg (codes "BODY") (article_argument spec)
  assemble (stat spec) = with_optional_arg (codes "STAT") (article_argument spec)
  assemble date = codes "DATE"
  assemble post = codes "POST"
  assemble help = codes "HELP"
  assemble (new_groups since) = format since newgroups_format
  assemble (list k) = with_optional_arg (codes "LIST " ++ keyword k) (wildmat k)
  assemble (over target) = with_optional_arg (codes "OVER") (target_argument target)
  assemble (x_over r) = codes "XOVER " ++ range_argument r
  assemble (hdr field target) = field_command (codes "HDR") field target
  assemble (x_hdr field target) = field_command (codes "XHDR") field target

  unfoldable pub to_wire : Command DateTime → Result Bytes
  to_wire c = finish c (assemble c)

  -- The log line of what `to_wire` returned
  unfoldable pub log_of : Command DateTime → Result Bytes → Bytes
  log_of c (ok bytes) = trim_line_end (lossy bytes)
  log_of c (err e) = name c ++ codes " <unencodable>"

  unfoldable pub to_log_string : Command DateTime → Bytes
  to_log_string c = if is_sensitive c then name c ++ codes " <redacted>" else log_of c (to_wire c)
