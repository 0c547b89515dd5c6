-- ===== src/Session/Nets.antt =====
-- booster/network.go: Nets, the networks of the nodes that were started; booster/booster.go: New.
mod Examples
use booster.Common.{
  ◌≡◌, refl, sym, ap, ◌∙◌, inl, inr, true, none, some, Option-cases, [], ◌∷◌, ◌++◌, arith, Bytes,
  =ᵇ_refl, ◌=ᵇ◌, if◌then◌else◌,
}
use booster.Common.Int.{ℤ}
use booster.Common.Result.{Result, Result-cases, ok, err}
use booster.Common.Dict.{Dict, lookup, insert, lookup-insert}
use mathlib.Core.List.{append-nil}
use booster.Node.State.{Node, Environment, sha1_hash}
use booster.Network.State.{Network, new_net}

-- The first two are panics of Get and Set.
pub data Error : Type 0 where
  unregistered already_registered : Bytes → Error
  node_error : booster.Node.State.Error → Error

abbrev pub Networks : Type 0
Networks = Dict Network

-- Networks.Get
unfoldable pub get_net : Bytes → Networks → Result Error Network
get_net id nets = elim (lookup id nets) [ none ↦ err (unregistered id) | some n ↦ ok n ]

-- Networks.Set
unfoldable pub set_net : Bytes → Network → Networks → Result Error (Unit {0}) × Networks
set_net id n nets = elim (lookup id nets) [
  | some _ ↦ (err (already_registered id), nets)
  | none ↦ (ok tt, insert id (record n { booster_id = id }) nets)
]

abbrev pub localhost : Bytes
localhost = b'l' ∷ b'o' ∷ b'c' ∷ b'a' ∷ b'l' ∷ b'h' ∷ b'o' ∷ b's' ∷ b't' ∷ []

-- `itoa` is strconv.Itoa.
module _ (env : Environment) (itoa : ℤ → Bytes) where
  abbrev pub booster_id : ℤ → ℤ → Bytes
  booster_id pport bport = sha1_hash env.digest (itoa pport ∷ itoa bport ∷ [])

  abbrev local_node : ℤ → ℤ → Result booster.Node.State.Error Node
  local_node pport bport = booster.Node.State.new env localhost (itoa pport) (itoa bport) true

  abbrev pub with_id : Bytes → Result Error (Unit {0}) × Networks → Result Error Bytes × Networks
  with_id id (ok u, nets) = (ok id, nets)
  with_id id (err e, nets) = (err e, nets)

  -- New; the id is that of the Booster, whose proxy and channels are made on the side.
  unfoldable pub new_booster : ℤ → ℤ → Networks → Result Error Bytes × Networks
  new_booster pport bport nets = elim (local_node pport bport) [
    | err e ↦ (err (node_error e), nets)
    | ok n ↦ let id = booster_id pport bport in with_id id (set_net id (new_net n id) nets)
  ]

  -- New registers the network of its node under its id, and leaves every other network.
  pub new_booster-get :
      (pport bport : ℤ) (nets nets' : Networks) (id key : Bytes)
      → new_booster pport bport nets ≡ (ok id, nets')
      → (n : Node) × (local_node pport bport ≡ ok n)
        × (get_net key nets' ≡ (if id =ᵇ key then ok (new_net n id) else get_net key nets))
  unfolding new_booster set_net get_net new_net
  new_booster-get pport bport nets nets' id key h = elim (Result-cases (local_node pport bport)) [
    | inl (e, f) ↦ absurd (ground arith)
    | inr (n, f) ↦
        let made = booster_id pport bport in
        let net : Network = new_net n made in
        elim (Option-cases (lookup made nets)) [
          | inl g ↦
              (n, f, ground (arith, lookup-insert made key (record net { booster_id = made }) nets))
          | inr (old, g) ↦ absurd (ground arith)
        ]
  ]

  registered :
      (pport bport : ℤ) (nets nets' : Networks) (id : Bytes)
      → new_booster pport bport nets ≡ (ok id, nets')
      → (n : Network) × (lookup (booster_id pport bport) nets' ≡ some n)
  unfolding new_booster set_net
  registered pport bport nets nets' id h = elim (Result-cases (local_node pport bport)) [
    | inl (e, f) ↦ absurd (ground arith)
    | inr (n, f) ↦
        let made = booster_id pport bport in
        elim (Option-cases (lookup made nets)) [
          | inl g ↦
              let net : Network = record (new_net n made) { booster_id = made } in
              (net, ground (arith, lookup-insert made made net nets, =ᵇ_refl made))
          | inr (old, g) ↦ absurd (ground arith)
        ]
  ]

  same_id :
      (pport bport pport' bport' : ℤ)
      → itoa pport ++ itoa bport ≡ itoa pport' ++ itoa bport'
      → booster_id pport bport ≡ booster_id pport' bport'
  unfolding mathlib.Core.List.flatten
  same_id pport bport pport' bport' same =
      ap env.digest (rw (append-nil (itoa bport), append-nil (itoa bport')) same)

  -- New does not succeed for ports whose decimals, one behind the other, are those of a node that was
  -- made before, and it changes no network then. So two nodes can exclude each other whose ports
  -- differ.
  pub new_booster-again :
      (pport bport pport' bport' : ℤ) (nets nets' : Networks) (id : Bytes)
      → new_booster pport bport nets ≡ (ok id, nets')
      → itoa pport ++ itoa bport ≡ itoa pport' ++ itoa bport'
      → (e : Error) × (new_booster pport' bport' nets' ≡ (err e, nets'))
  unfolding new_booster set_net
  new_booster-again pport bport pport' bport' nets nets' id h same =
      let (n, held) = registered pport bport nets nets' id h in
      let there : lookup (booster_id pport' bport') nets' ≡ some n =
        ap (λ k. lookup k nets') (sym (same_id pport bport pport' bport' same)) ∙ held in
      elim (Result-cases (local_node pport' bport')) [
        | inl (e, f) ↦ (node_error e, rw (f, new_booster) refl)
        | inr (m, f) ↦ (
          already_registered (booster_id pport' bport'),
          rw (f, new_booster, there, set_net) refl,
        )
      ]
