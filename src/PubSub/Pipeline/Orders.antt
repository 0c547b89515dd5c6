-- ===== src/PubSub/Pipeline/Orders.antt =====
-- The order in which a subscriber gets its messages.
use booster.Common.{
  ℕ, ◌≡◌, refl, ◌∙◌, none, some, Option, List, [], ◌∷◌, ◌++◌, arith, Bytes, Option-cases, inl, inr,
}
use booster.Common.Steps.{run_each, run_each-append}
use mathlib.Core.List.{append-nil, append_assoc}
use booster.PubSub.Pipeline.{
  Pipe, subscribed, Action, publishes, hears_message, delivers, run_returns, take_out, pub_begins,
  message_heard, put_out, run_ends, act, schedule,
}

-- The list in another order: at each turn the element at the next index is taken out.
unfoldable pub reordered {ℓ} : {A : Type ℓ} → List ℕ → List A → Option (List A)
reordered [] [] = some []
reordered [] (m ∷ ms) = none
reordered (i ∷ is) ms = elim (take_out i ms) [
  | none ↦ none
  | some (m, rest) ↦ elim (reordered is rest) [ none ↦ none | some ns ↦ some (m ∷ ns) ]
]

-- Each message is published and handed to its goroutine before the next one is published.
abbrev pub publish_each : List Bytes → List Action
publish_each [] = []
publish_each (m ∷ ms) = publishes m ∷ hears_message ∷ publish_each ms

-- The command runs on a message at a time, without an error.
abbrev pub deliver_each : List ℕ → List Action
deliver_each [] = []
deliver_each (i ∷ is) = delivers i ∷ run_returns none ∷ deliver_each is

-- A subscription between the calls, whose command has not failed.
abbrev idle : List Bytes → List Bytes → List Bytes → Pipe
idle pending accepted delivered = record subscribed {
  pending = pending;
  accepted = accepted;
  delivered = delivered;
}

publish_each-idle :
    (ms xs ys : List Bytes)
    → schedule (publish_each ms) (idle xs ys []) ≡ some (idle (xs ++ ms) (ys ++ ms) [])
unfolding run_each subscribed act pub_begins message_heard
publish_each-idle [] xs ys = rw (append-nil xs, append-nil ys) refl
publish_each-idle (m ∷ ms) xs ys =
    publish_each-idle ms (xs ++ m ∷ []) (ys ++ m ∷ [])
    ∙ rw (append_assoc xs (m ∷ []) ms, append_assoc ys (m ∷ []) ms) refl

deliver_each-idle :
    (is : List ℕ) (ms ns xs ys : List Bytes)
    → reordered is ms ≡ some ns
    → schedule (deliver_each is) (idle ms xs ys) ≡ some (idle [] xs (ys ++ ns))
unfolding run_each subscribed act put_out run_ends reordered take_out
deliver_each-idle [] [] ns xs ys e = let n : [] ≡ ns = ground arith in rw (← n, append-nil ys) refl
deliver_each-idle [] (m ∷ ms) ns xs ys e = cc
deliver_each-idle (i ∷ is) ms ns xs ys e = elim (Option-cases (take_out i ms)) [
  | inl f ↦ absurd (ground arith)
  | inr ((m, rest), f) ↦ elim (Option-cases (reordered is rest)) [
    | inl g ↦ absurd (ground arith)
    | inr (ns', g) ↦
        let n : m ∷ ns' ≡ ns = ground arith in
        rw (act, put_out, f)
          (deliver_each-idle is rest ns' xs (ys ++ m ∷ []) g
            ∙ rw (append_assoc ys (m ∷ []) ns', n) refl)
  ]
]

-- Messages that are published one after the other can reach the command in any order: for each
-- order of the list there is a schedule in which all are accepted and put out in that order.
pub schedule-reordered :
    (is : List ℕ) (ms ns : List Bytes)
    → reordered is ms ≡ some ns
    → schedule (publish_each ms ++ deliver_each is) subscribed
      ≡ some (record subscribed { accepted = ms; delivered = ns })
unfolding subscribed
schedule-reordered is ms ns e =
    run_each-append act (publish_each ms) (deliver_each is) subscribed (idle ms ms [])
      (publish_each-idle ms [] [])
    ∙ deliver_each-idle is ms ns ms [] e
