-- ===== src/Packet/Types.antt =====
-- network/packet/packet.go: packets and their modules.
use booster.Common.{ℕ, ◌==◌, ltb, length, ◌||◌, not, if◌then◌else◌, Bytes, [], Option, none, some}
use booster.Common.Result.{Result, ok, err}
use booster.Common.Dict.{Dict, lookup, insert, delete}
use booster.Packet.Stream.{IoError}

-- The place of a packet that an error is about.
pub data Place : Type 0 where
  packet_open_tag encoding compression encryption packet_separator modules_number : Place
  packet_close_tag module_open_tag module_id module_separator payload_size : Place
  module_payload module_close_tag : Place

pub data Error : Type 0 where
  -- an error of the stream, or none where a tag outgrew its buffer
  failed : Place → Option IoError → Error
  too_many_modules : Error
  bad_id : Bytes → Error
  bad_size : ℕ → Error
  unexpected_closing_tag : Bytes → Error
  already_present : Bytes → Error
  not_found : Bytes → Error

pub record TagSet : Type 0 where
  pub packet_opening_tag : Bytes
  pub packet_closing_tag : Bytes
  pub module_opening_tag : Bytes
  pub module_closing_tag : Bytes
  pub separator : Bytes

pub record Metadata : Type 0 where
  pub encoding : ℕ
  pub compression : ℕ
  pub encryption : ℕ

pub record Module : Type 0 where
  pub id : Bytes
  pub size : ℕ
  pub payload : Bytes

pub record Packet : Type 0 where
  pub metadata : Metadata
  pub modules : Dict Module

abbrev pub new : Packet
new = record { metadata = record { encoding = 0; compression = 0; encryption = 0 }; modules = [] }

unfoldable pub new_module : Bytes → Bytes → Result Error Module
new_module id payload =
    let size = length payload in
    if not (length id == 2)
    then err (bad_id id)
    else if ltb size 1 || ltb 0xffff size
    then err (bad_size size)
    else ok (record { id = id; size = size; payload = payload })

-- The changed packet comes back beside the module that was added.
unfoldable pub add_module : Packet → Bytes → Bytes → Result Error (Module × Packet)
unfolding new_module
add_module p id payload = elim (lookup id p.modules) [
  | some _ ↦ err (already_present id)
  | none ↦ elim (new_module id payload) [
    | err e ↦ err e
    | ok m ↦ ok (m, record p { modules = insert id m p.modules })
  ]
]

unfoldable pub del_module : Packet → Bytes → Packet
del_module p id = record p { modules = delete id p.modules }

-- p.Module(id)
unfoldable pub find_module : Packet → Bytes → Result Error Module
find_module p id = elim (lookup id p.modules) [ none ↦ err (not_found id) | some m ↦ ok m ]
