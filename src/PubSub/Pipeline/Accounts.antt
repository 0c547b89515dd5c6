-- ===== src/PubSub/Pipeline/Accounts.antt =====
-- What becomes of the messages that a subscription is handed.
use booster.Common.{
  ℕ, zero, suc, ◌+◌, ◌≡◌, refl, true, false, some, List, [], ◌∷◌, ◌++◌, if◌then◌else◌, arith, Bytes,
  ◌=ᵇ◌, Option-cases, Bool-cases, inl, inr,
}
use booster.Common.Steps.{run_each-keeps}
use booster.PubSub.Pipeline.{
  Pipe, subscribed, Action, publishes, hears_message, delivers, expires, hears_timer, unsubscribes,
  hears_unsub, deactivates, closes_out, run_returns, unsub_returns, range_ends, take_out,
  pub_begins, message_heard, put_out, expired, timer_heard, unsub_heard, unsub_begins, deactivated,
  out_closed, run_ends, unsub_ends, range_over, act, schedule,
}

-- How often a message is in a list.
abbrev pub count : Bytes → List Bytes → ℕ
count m [] = 0
count m (x ∷ xs) = (if m =ᵇ x then 1 else 0) + count m xs

count-append : (m : Bytes) (xs ys : List Bytes) → count m (xs ++ ys) ≡ count m xs + count m ys
count-append m [] ys = omega arith
count-append m (x ∷ xs) ys = omega (arith, count-append m xs ys)

count-take_out :
    (k : Bytes) (i : ℕ) (ms : List Bytes) (m : Bytes) (rest : List Bytes)
    → take_out i ms ≡ some (m, rest)
    → count k ms ≡ count k (m ∷ []) + count k rest
unfolding take_out
count-take_out k i [] m rest h = cc
count-take_out k zero (x ∷ ms) m rest h = ground arith
count-take_out k (suc i) (x ∷ ms) m rest h = elim (Option-cases (take_out i ms)) [
  | inl e ↦ absurd (ground arith)
  | inr ((y, r), e) ↦ ground (arith, count-take_out k i ms y r e)
]

-- A flag that is down takes the next one down before the channel is closed.
pub record IsFlagged (p : Pipe) : Type 0 where
  pub loops : p.looping ≡ true → p.active ≡ true
  pub opens : p.active ≡ true → p.out_open ≡ true

act-IsFlagged : (a : Action) (p q : Pipe) → act a p ≡ some q → IsFlagged p → IsFlagged q
unfolding act pub_begins message_heard put_out expired timer_heard unsub_heard unsub_begins
    deactivated out_closed run_ends unsub_ends range_over
act-IsFlagged (publishes m) p q e h = ground arith
act-IsFlagged hears_message p q e h = ground arith
act-IsFlagged (delivers i) p q e h = ground arith
act-IsFlagged (expires i) p q e h = ground arith
act-IsFlagged hears_timer p q e h = ground arith
act-IsFlagged unsubscribes p q e h = ground arith
act-IsFlagged hears_unsub p q e h = ground arith
act-IsFlagged deactivates p q e h = ground arith
act-IsFlagged closes_out p q e h = ground arith
act-IsFlagged (run_returns r) p q e h = ground arith
act-IsFlagged unsub_returns p q e h = ground arith
act-IsFlagged range_ends p q e h = ground arith

-- Each message that was accepted was put out, waits to be, or was dropped.
abbrev pub IsAccounted : Bytes → Pipe → Type 0
IsAccounted k p = count k p.accepted ≡ count k p.delivered + count k p.pending + count k p.dropped

act-IsAccounted :
    (k : Bytes) (a : Action) (p q : Pipe) → act a p ≡ some q → IsAccounted k p → IsAccounted k q
unfolding act pub_begins message_heard put_out expired timer_heard unsub_heard unsub_begins
    deactivated out_closed run_ends unsub_ends range_over
act-IsAccounted k (publishes m) p q e h = ground arith
act-IsAccounted k hears_message p q e h = grind (arith, count-append)
act-IsAccounted k (delivers i) p q e h = grind (arith, count-append, count-take_out)
act-IsAccounted k (expires i) p q e h = grind (arith, count-append, count-take_out)
act-IsAccounted k hears_timer p q e h = ground arith
act-IsAccounted k unsubscribes p q e h = ground arith
act-IsAccounted k hears_unsub p q e h = ground arith
act-IsAccounted k deactivates p q e h = ground arith
act-IsAccounted k closes_out p q e h = ground arith
act-IsAccounted k (run_returns r) p q e h = ground arith
act-IsAccounted k unsub_returns p q e h = ground arith
act-IsAccounted k range_ends p q e h = ground arith

-- After the calls and the goroutines of a subscription have run in any order, each message that was
-- accepted is counted once more among those that were put out to the command, that wait to be, or
-- that were dropped.
pub schedule-IsAccounted :
    (as_ : List Action) (q : Pipe) (m : Bytes) → schedule as_ subscribed ≡ some q → IsAccounted m q
unfolding subscribed
schedule-IsAccounted as_ q m e =
    run_each-keeps act (IsAccounted m) (act-IsAccounted m) as_ subscribed q e refl

abbrev IsClosed : List Bytes → List Bytes → Pipe → Type 0
IsClosed accepted delivered p =
    (p.looping ≡ false) × (p.out_open ≡ false) × (p.accepted ≡ accepted) × (p.delivered ≡ delivered)

act-IsClosed :
    (xs ys : List Bytes) (a : Action) (p q : Pipe)
    → act a p ≡ some q
    → IsClosed xs ys p
    → IsClosed xs ys q
unfolding act pub_begins message_heard put_out expired timer_heard unsub_heard unsub_begins
    deactivated out_closed run_ends unsub_ends range_over
act-IsClosed xs ys (publishes m) p q e h = ground arith
act-IsClosed xs ys a p q e h = ground arith

-- Once the output channel of a subscription is closed, no message is accepted or put out any more,
-- in whatever order the calls and the goroutines go on.
pub schedule-closed :
    (before after : List Action) (p q : Pipe)
    → schedule before subscribed ≡ some p
    → p.out_open ≡ false
    → schedule after p ≡ some q
    → (q.accepted ≡ p.accepted) × (q.delivered ≡ p.delivered)
unfolding subscribed
schedule-closed before after p q e closed f =
    let flags : IsFlagged p =
      run_each-keeps act IsFlagged act-IsFlagged before subscribed p e
        (record { loops = λ x. refl; opens = λ x. refl }) in
    let still : p.looping ≡ false = elim (Bool-cases p.looping) [
      | inl on ↦ absurd (let o = flags.opens (flags.loops on) in cc)
      | inr off ↦ off
    ] in
    let kept =
      run_each-keeps act (IsClosed p.accepted p.delivered) (act-IsClosed p.accepted p.delivered)
        after p q f (still, closed, refl, refl) in
    (kept.2, kept.3)
