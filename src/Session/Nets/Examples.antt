-- ===== src/Session/Nets/Examples.antt =====
-- Two nodes on a host whose ports have the same digits.
use booster.Common.{
  ℕ, zero, suc, ◌+◌, ◌/◌, ◌%◌, ltb, ◌≡◌, refl, true, false, some, [], ◌∷◌, ◌++◌, if◌then◌else◌,
  Bytes, ◌=ᵇ◌,
}
use booster.Common.Int.{ℤ, pos, pos_part}
use booster.Common.Result.{ok, err}
use booster.Common.Dict.{lookup, insert}
use booster.Node.State.{Node, Environment}
use booster.Network.State.{new_net}
use booster.Session.Nets.{already_registered, localhost, new_booster, set_net}

digits : ℕ → ℕ → Bytes
digits zero n = []
digits (suc f) n =
    let front = digits f (n / 10) in (if ltb n 10 then [] else front) ++ (b'0' + n % 10) ∷ []

abbrev itoa : ℤ → Bytes
itoa n = digits 20 (pos_part n)

abbrev env : Environment
env = record { resolve = some; digest = λ image. image }

-- Ports 12 and 3.
abbrev made : Node
made = record {
  id = localhost ++ b'3' ∷ b'1' ∷ b'2' ∷ [];
  baddr = localhost ++ b':' ∷ b'3' ∷ [];
  paddr = localhost ++ b':' ∷ b'1' ∷ b'2' ∷ [];
  is_local = true;
  to_be_traced = false;
  stopped = false;
  active = false;
  tunnels = [];
}

abbrev id_ : Bytes
id_ = b'1' ∷ b'2' ∷ b'3' ∷ []

first_made : new_booster env itoa (pos 12) (pos 3) [] ≡ (ok id_, (id_, new_net made id_) ∷ [])
unfolding new_booster set_net digits insert lookup booster.Node.State.new new_net
    mathlib.Core.List.flatten booster.Node.State.join_host_port
first_made = refl

-- Ports 1 and 23.
second_refused :
    (new_booster env itoa (pos 1) (pos 23) ((id_, new_net made id_) ∷ [])).0
    ≡ err (already_registered id_)
unfolding new_booster set_net digits insert lookup ◌=ᵇ◌ booster.Node.State.new new_net
    mathlib.Core.List.flatten booster.Node.State.join_host_port
second_refused = refl
