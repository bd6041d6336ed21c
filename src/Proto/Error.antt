-- ===== src/Proto/Error.antt =====
-- crates/nntp-proto/src/error.rs: the errors of the protocol layer, and results that may be one.
use rust_nntp.Prelude.Text.{Bytes}
use rust_nntp.Prelude.{ℕ, Bool, true, false}

pub data ProtoError : Type 0 where
  malformed_status_line : Bytes → ProtoError
  missing_field : Bytes → Bytes → ProtoError
  invalid_number : Bytes → Bytes → ProtoError
  illegal_command_argument : Bytes → ProtoError
  unpostable_draft : Bytes → ProtoError
  command_too_long : Bytes → ℕ → ProtoError
  invalid_message_id : Bytes → ProtoError
  invalid_group_name : Bytes → ProtoError
  invalid_header_name : Bytes → ProtoError
  invalid_wildmat : Bytes → ProtoError
  invalid_date : Bytes → ProtoError

-- Whether the peer sent something invalid.
unfoldable pub is_peer_fault : ProtoError → Bool
is_peer_fault (illegal_command_argument _) = false
is_peer_fault (command_too_long _ _) = false
is_peer_fault (unpostable_draft _) = false
is_peer_fault (invalid_wildmat _) = false
is_peer_fault _ = true

pub data Result {ℓ} (A : Type ℓ) : Type ℓ where
  ok : A → Result A
  err : ProtoError → Result A

infixl 5 ◌>>=◌
abbrev pub ◌>>=◌ {ℓ κ} : {A : Type ℓ} {B : Type κ} → Result A → (A → Result B) → Result B
ok a >>= f = f a
err e >>= f = err e
