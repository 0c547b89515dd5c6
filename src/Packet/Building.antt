-- ===== src/Packet/Building.antt =====
-- What AddModule, DelModule and Module do to a packet.
use booster.Packet.Types.{Packet, Module, new_module, add_module, find_module}
use booster.Common.{
  ◌=ᵇ◌, if◌then◌else◌, inr, inl, =ᵇ_iff, length-append, =ᵇ_refl, Option-cases, [], none, sym, ◌∷◌,
  ◌++◌, ◌+◌, arith, ◌≡◌, length, Bytes,
}
use booster.Common.Result.{ok}
use booster.Packet.Decoder.RoundTrip.{IsPacket, Keyed, IsModule}
use booster.Common.Dict.{lookup-insert, insert-IsMap, insert_new, lookup, insert, Dict}

-- A module that `NewModule` makes has two letters, 1 to 65535 bytes, and their number as its size.
pub new_module-IsModule :
    (id payload : Bytes) (m : Module)
    → new_module id payload ≡ ok m
    → IsModule m × (m.id ≡ id) × (m.payload ≡ payload)
unfolding new_module
new_module-IsModule id payload m h = (
  record {
    two_letters = ground arith;
    has_size = ground arith;
    not_empty = ground arith;
    not_long = ground arith;
  },
  ground arith,
  ground arith,
)

Keyed-append : (d e : Dict Module) → Keyed d → Keyed e → Keyed (d ++ e)
Keyed-append [] e kd ke = ke
Keyed-append ((k, m) ∷ d) e (key, good, keys) ke = (key, good, Keyed-append d e keys ke)

-- What a call that adds a module has found and done.
add_module_inv :
    (p : Packet) (id payload : Bytes) (m : Module) (q : Packet)
    → add_module p id payload ≡ ok (m, q)
    → (lookup id p.modules ≡ none)
      × (new_module id payload ≡ ok m)
      × (q ≡ record p { modules = insert id m p.modules })
unfolding add_module
add_module_inv p id payload m q e = elim (Option-cases (lookup id p.modules)) [
  | inl fresh ↦ (fresh, ground arith, ground arith)
  | inr (old, taken) ↦ absurd (ground arith)
]

-- Adding a module, when it succeeds, keeps a packet well formed, makes the module found under its
-- id with the payload given, leaves the others as they were and makes the packet one module longer.
pub add_module-IsPacket :
    (p : Packet) (id payload : Bytes) (m : Module) (q : Packet)
    → IsPacket p
    → add_module p id payload ≡ ok (m, q)
    → IsPacket q
      × (find_module q id ≡ ok m)
      × (m.payload ≡ payload)
      × (length q.modules ≡ length p.modules + 1)
      × ((j : Bytes) → find_module q j ≡ (if id =ᵇ j then ok m else find_module p j))
unfolding find_module
add_module-IsPacket p id payload m q h e =
    let (fresh, made, q_is) = add_module_inv p id payload m q e in
    let (good, named, filled) = new_module-IsModule id payload m made in
    let end = insert_new id m p.modules fresh in
    rw q_is (
      record {
        keyed = rw end (Keyed-append p.modules _ h.keyed (sym named, good, tt));
        is_map = insert-IsMap id m p.modules h.is_map;
      },
      ground (arith, lookup-insert id id m p.modules, =ᵇ_refl id),
      filled,
      rw end (length-append p.modules ((id, m) ∷ [])),
      λ j. ground (arith, lookup-insert id j m p.modules, =ᵇ_iff id j),
    )
