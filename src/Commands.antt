-- ===== src/Commands.antt =====
-- cmd/booster/commands: the arguments of ctrl, connect and disconnect, and the ctrl command.
pub mod Requested
pub mod Performed
mod Examples
use booster.Common.{Option, none, some, List, [], ◌∷◌, if◌then◌else◌, Bytes, ◌=ᵇ◌}
use booster.Common.Result.{Result, ok, err, ◌>>=◌, ◌>>◌}
use booster.Protocol.Payloads.{Operation, ctrl_stop, ctrl_restart}
use booster.Session.{Outside, Session, lift, undefined_operation}
use booster.Session.Senders.{send_ctrl}

abbrev pub stop_word : Bytes
stop_word = b's' ∷ b't' ∷ b'o' ∷ b'p' ∷ []

abbrev pub restart_word : Bytes
restart_word = b'r' ∷ b'e' ∷ b's' ∷ b't' ∷ b'a' ∷ b'r' ∷ b't' ∷ []

-- OperationFromString
unfoldable pub operation_from_string : Bytes → Result Bytes Operation
operation_from_string raw =
    if raw =ᵇ stop_word
    then ok ctrl_stop
    else if raw =ᵇ restart_word
    then ok ctrl_restart
    else err raw

-- `localhost:4884`
abbrev pub default_addr : Bytes
default_addr =
    b'l' ∷ b'o' ∷ b'c' ∷ b'a' ∷ b'l' ∷ b'h' ∷ b'o' ∷ b's' ∷ b't' ∷ b':' ∷ b'4' ∷ b'8' ∷ b'8' ∷ b'4'
    ∷ []

-- The address and the other argument of a command that takes one or two.
unfoldable pub arguments : List Bytes → Option (Bytes × Bytes)
arguments (addr ∷ x ∷ []) = some (addr, x)
arguments (x ∷ []) = some (default_addr, x)
arguments args = none

module _ (o : Outside) where
  unfoldable pub ctrl_command : Bytes → Bytes → Session (Unit {0})
  ctrl_command addr raw = do
    op ← lift undefined_operation (operation_from_string raw)
    send_ctrl o addr op
