-- ===== src/Node/Identity.antt =====
-- The identifier that node.New gives a node.
use booster.Common.{◌≡◌, refl, sym, ap, ◌∙◌, inl, inr, Bool, [], ◌++◌, arith, Option-cases, Bytes}
use booster.Common.Result.{Result, ok, err}
use mathlib.Core.List.{append_assoc, flatten}
use booster.Node.State.{Error, Error, Node, Environment, new, join_host_port}

abbrev id_or_none : Result Error Node → Bytes
id_or_none (ok n) = n.id
id_or_none (err e) = []

id_of :
    (env : Environment) (host pport bport : Bytes) (is_local : Bool) (n : Node)
    → new env host pport bport is_local ≡ ok n
    → n.id ≡ env.digest (host ++ (bport ++ (pport ++ [])))
unfolding new flatten
id_of env host pport bport is_local n h =
    elim (Option-cases (env.resolve (join_host_port host bport))) [
      | inl e ↦ absurd (ground arith)
      | inr (b, e) ↦ elim (Option-cases (env.resolve (join_host_port host pport))) [
        | inl f ↦ absurd (ground arith)
        | inr (p, f) ↦ sym (ap id_or_none h) ∙ rw (new, e, f) refl
      ]
    ]

-- The host and the two ports go into the hash without a separator: if New makes both nodes, moving
-- digits from the end of the booster port to the front of the proxy port gives a node with the same
-- identifier.
pub new-id :
    (env : Environment) (host pport bport digits : Bytes) (local1 local2 : Bool) (n m : Node)
    → new env host pport (bport ++ digits) local1 ≡ ok n
    → new env host (digits ++ pport) bport local2 ≡ ok m
    → n.id ≡ m.id
new-id env host pport bport digits local1 local2 n m hn hm =
    id_of env host pport (bport ++ digits) local1 n hn
    ∙ rw (append_assoc bport digits (pport ++ []), append_assoc digits pport []) refl
    ∙ sym (id_of env host (digits ++ pport) bport local2 m hm)
