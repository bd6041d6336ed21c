-- ===== src/ReadState/Store/File.antt =====
-- The file of crates/nntp-tui/src/readstate/store.rs: its name, and `save`. The directory holds the
-- file and the temporary one; which call fails, and what a failed write leaves, is an argument.
pub mod Laws
use rust_nntp.Prelude.Text.{Bytes, codes, trim, to_lower, within}
use rust_nntp.Prelude.{
  ℕ, ◌+◌, Bool, true, false, ◌&&◌, ◌||◌, Option, none, some, List, [], ◌∷◌, ◌++◌, ltb, leb, ◌==◌,
  if◌then◌else◌, map, length,
}
use rust_nntp.Proto.Utf8.{utf8}
use rust_nntp.ReadState.Store.{
  ReadStore, Loading, size, not_found, octets, read_failed, load, to_newsrc,
}

unfoldable pub is_safe : ℕ → Bool
is_safe c = within b'a' b'z' c || within b'0' b'9' c || c == b'.' || c == b'-' || c == b'_'

unfoldable pub safe_char : ℕ → ℕ
safe_char c = if is_safe c then c else b'_'

-- The loop that removes leading dots
unfoldable pub drop_dots : Bytes → Bytes
drop_dots [] = []
drop_dots (c ∷ s) = if c == b'.' then drop_dots s else c ∷ s

abbrev pub or_unknown : Bytes → Bytes
or_unknown [] = codes "unknown-server"
or_unknown (c ∷ s) = c ∷ s

unfoldable pub file_name_for : Bytes → Bytes
file_name_for server =
    or_unknown (drop_dots (map safe_char (map to_lower (trim server)))) ++ codes ".newsrc"

pub record Directory : Type 0 where
  pub file : Option Bytes
  pub temporary : Option Bytes

-- The call that fails: the path has no parent, or `create_dir_all`, `write` or `rename` fails; a
-- write that fails may leave a part of the file.
pub data Fault : Type 0 where
  no_parent no_directory no_rename : Fault
  no_write : Option Bytes → Fault

-- The directory after each call of `save` that touches it.
unfoldable pub save_calls : Option Fault → Bytes → Directory → List Directory
save_calls (some no_parent) text d = []
save_calls (some no_directory) text d = []
save_calls (some (no_write left)) text d = record d { temporary = left } ∷ []
save_calls (some no_rename) text d = record d { temporary = some text } ∷ []
save_calls none text d =
    record d { temporary = some text } ∷ record { file = some text; temporary = none } ∷ []

abbrev pub last_of : Directory → List Directory → Directory
last_of d [] = d
last_of d (e ∷ ds) = last_of e ds

pub record Saved : Type 0 where
  pub failure : Option Fault
  pub store : ReadStore
  pub directory : Directory

-- The store is clean only behind the rename.
abbrev pub saved_store : Option Fault → ReadStore → ReadStore
saved_store none s = record s { dirty = false }
saved_store (some fault) s = s

unfoldable pub save : Option Fault → ReadStore → Directory → Saved
save fault s d = record {
  failure = fault;
  store = saved_store fault s;
  directory = last_of d (save_calls fault (utf8 (to_newsrc s)) d);
}

unfoldable pub save_if_dirty : Option Fault → ReadStore → Directory → Saved
save_if_dirty fault s d =
    if s.dirty then save fault s d else record { failure = none; store = s; directory = d }

-- `load` of the file that is in the directory
unfoldable pub load_file : Bytes → Option Bytes → Loading
load_file path none = load path not_found (read_failed [])
load_file path (some bytes) = load path (size (length bytes)) (octets bytes)
