-- ===== src/Packet/Tag/Matches.antt =====
-- What a TagReader does on a stream: whole tags, tags cut short, and wrong bytes.
use mathlib.Core.List.{append-nil, append_assoc}
use booster.Common.{
  ℕ, zero, suc, ◌+◌, ◌≤◌, ◌<◌, ◌≡◌, refl, ap, ◌∙◌, arith, length, drop, get_elem?, [], ◌∷◌, ◌++◌,
  Bytes, some,
}
use booster.Packet.Stream.{IoError, eof}
use booster.Packet.Tag.{new_tag_reader, read_loop, read}

-- What is left of a tag at `cur`, in the terms of the loop.
get_elem?-drop :
    (cur : ℕ) (tag : Bytes) {c : ℕ} {s : Bytes}
    → drop cur tag ≡ c ∷ s
    → (get_elem? tag cur ≡ some c) × (drop (suc cur) tag ≡ s) × (cur < length tag)
get_elem?-drop zero [] h = cc
get_elem?-drop zero (x ∷ tag) h = (ground arith, ground arith, omega arith)
get_elem?-drop (suc cur) [] h = cc
get_elem?-drop (suc cur) (x ∷ tag) h =
    let (e, d, l) = get_elem?-drop cur tag h in (e, d, omega arith)

drop-nil : (cur : ℕ) (tag : Bytes) → drop cur tag ≡ [] → cur ≤ length tag → cur ≡ length tag
drop-nil zero [] h l = refl
drop-nil zero (x ∷ tag) h l = cc
drop-nil (suc cur) [] h l = absurd (omega arith)
drop-nil (suc cur) (x ∷ tag) h l = ap suc (drop-nil cur tag h (omega arith))

-- The rest `s` of the tag is next on the stream, and the buffer has room for it.
read_loop_whole :
    (room cur : ℕ) (tag s buf rest : Bytes) (f : IoError)
    → drop cur tag ≡ s
    → cur ≤ length tag
    → length s ≤ room
    → read_loop room
        (record { tag = tag; cur = cur })
        buf
        (record { pending = s ++ rest; failure = f })
      ≡ record {
        tags = record { tag = tag; cur = length tag };
        buf = buf ++ s;
        error = some eof;
        reader = record { pending = rest; failure = f };
      }
unfolding read_loop
read_loop_whole zero cur tag [] buf rest f d l h =
    ground (arith, drop-nil cur tag d l, append-nil buf)
read_loop_whole zero cur tag (c ∷ s) buf rest f d l h = absurd (omega arith)
read_loop_whole (suc room) cur tag [] buf rest f d l h =
    ground (arith, drop-nil cur tag d l, append-nil buf)
read_loop_whole (suc room) cur tag (c ∷ s) buf rest f d l h =
    let (e, d', l') = get_elem?-drop cur tag d in
    let suc_cur : cur + 1 ≡ suc cur = omega arith in
    ground (
      arith,
      e,
      suc_cur,
      append_assoc buf (c ∷ []) s,
      read_loop_whole room (suc cur) tag s (buf ++ c ∷ []) rest f d' l' (omega arith),
    )

-- The stream ends within the tag: the end of the stream, io.EOF too, is the error of the read.
read_loop_short :
    (room cur : ℕ) (tag s t buf : Bytes) (f : IoError)
    → drop cur tag ≡ s ++ t
    → 0 < length t
    → length s < room
    → read_loop room (record { tag = tag; cur = cur }) buf (record { pending = s; failure = f })
      ≡ record {
        tags = record { tag = tag; cur = cur + length s };
        buf = buf ++ s;
        error = some f;
        reader = record { pending = []; failure = f };
      }
unfolding read_loop
read_loop_short zero cur tag s t buf f d p h = absurd (omega arith)
read_loop_short (suc room) cur tag s [] buf f d p h = absurd (omega arith)
read_loop_short (suc room) cur tag [] (x ∷ t) buf f d p h =
    let (e, d', l') = get_elem?-drop cur tag d in
    let cur_zero : cur + 0 ≡ cur = omega arith in ground (arith, e, append-nil buf)
read_loop_short (suc room) cur tag (c ∷ s) (x ∷ t) buf f d p h =
    let (e, d', l') = get_elem?-drop cur tag d in
    let suc_cur : cur + 1 ≡ suc cur = omega arith in
    let sum : suc cur + length s ≡ cur + suc (length s) = omega arith in
    ground (
      arith,
      e,
      append_assoc buf (c ∷ []) s,
      read_loop_short room (suc cur) tag s (x ∷ t) (buf ++ c ∷ []) f d' p (omega arith),
    )

pub read_whole :
    (tag rest : Bytes) (n : ℕ) (f : IoError)
    → length tag ≤ n
    → read (new_tag_reader tag) n (record { pending = tag ++ rest; failure = f }) ≡ record {
      tags = record { tag = tag; cur = length tag };
      buf = tag;
      error = some eof;
      reader = record { pending = rest; failure = f };
    }
unfolding read
read_whole tag rest n f h = read_loop_whole n 0 tag tag [] rest f refl (omega arith) h

pub read_short :
    (s t : Bytes) (n : ℕ) (f : IoError)
    → 0 < length t
    → length s < n
    → read (new_tag_reader (s ++ t)) n (record { pending = s; failure = f }) ≡ record {
      tags = record { tag = s ++ t; cur = length s };
      buf = s;
      error = some f;
      reader = record { pending = []; failure = f };
    }
unfolding read
read_short s t n f p h = read_loop_short n 0 (s ++ t) s t [] f refl p h ∙ ground arith
