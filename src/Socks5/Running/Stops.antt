-- ===== src/Socks5/Running/Stops.antt =====
-- Run after a Close.
use booster.Common.{
  ℕ, ◌≡◌, refl, Bool, true, false, ◌+◌, ◌⊎◌, inl, inr, Option-cases, none, some, List, [], ◌∷◌,
  arith, sym, subst, ◌≤◌,
}
use booster.Common.Steps.{run_each}
use booster.Socks5.Running.{
  cancelled, stopped, failed, Main, selecting, stopping, returned, Serving, listening, waiting,
  leaving, offering, over, Accepting, absent, accepting, refusing, gone, Server, started, Event,
  closes, hears_stop, listens, accepts, accept_fails, hears_done, hears_accept, hears_error,
  stop_heard, listened, accepted, accept_failed, done_heard, accept_heard, error_heard, server_step,
}
use booster.Socks5.Running.Ends.{
  IsServing, IsLive, IsMain, IsServer, server_step-IsServer, reached-IsServer,
}

-- The steps of Run's goroutines. The others are the calls of Close and the connections accepted.
abbrev pub own : Event → ℕ
own closes = 0
own accepts = 0
own e = 1

abbrev pub own_steps : List Event → ℕ
own_steps [] = 0
own_steps (e ∷ es) = own e + own_steps es

-- How many of those steps are left when Run waits for ListenAndServe.
abbrev left_at : Serving → Accepting → ℕ
left_at listening l = 5
left_at waiting accepting = 4
left_at waiting l = 3
left_at leaving accepting = 3
left_at leaving l = 2
left_at (offering e) l = 1
left_at over l = 0

abbrev steps_left : Server → ℕ
steps_left s = left_at s.serving s.loop

abbrev IsStopping : Main → Type 0
IsStopping stopping = Unit {0}
IsStopping (returned stopped) = Unit {0}
IsStopping _ = ⊥

abbrev IsEnding : Server → Type 0
IsEnding s = IsServer s × IsStopping s.main

left_at-≤ : (v : Serving) (l : Accepting) → left_at v l ≤ 5
left_at-≤ v l = ground arith

server_step-left :
    (e : Event) (s t : Server)
    → server_step e s ≡ some t
    → IsEnding s
    → (IsStopping t.main) × (own e + steps_left t ≤ steps_left s)
unfolding server_step stop_heard listened accepted accept_failed done_heard accept_heard error_heard
server_step-left closes s t e h = ground arith
server_step-left hears_stop s t e h = ground arith
server_step-left (listens x) s t e h = ground arith
server_step-left accepts s t e h = ground arith
server_step-left (accept_fails x) s t e h = ground arith
server_step-left hears_done s t e h = ground arith
server_step-left hears_accept s t e h = ground arith
server_step-left hears_error s t e h = ground arith

run_each-left :
    (es : List Event) (s t : Server)
    → run_each server_step es s ≡ some t
    → IsEnding s
    → IsEnding t × (own_steps es + steps_left t ≤ steps_left s)
unfolding run_each
run_each-left [] s t at_ h =
    subst
      (λ o. elim o [ none ↦ Unit {0} | some x ↦ IsEnding x × (0 + steps_left x ≤ steps_left s) ])
      at_ (h, omega arith)
run_each-left (e ∷ es) s t at_ h = elim (Option-cases (server_step e s)) [
  | inl f ↦ absurd (ground arith)
  | inr (u, f) ↦
      let (ends, less) = server_step-left e s u f h in
      let (k, few) = run_each-left es u t (ground arith) (server_step-IsServer e s u f h.0, ends) in
      (k, omega arith)
]

-- A step of Run's goroutines can be taken.
abbrev pub CanStep : Server → Type 0
CanStep s = (e : Event) × (t : Server) × (own e ≡ 1) × (server_step e s ≡ some t)

abbrev stopping_at : Serving → Accepting → Bool → ℕ → ℕ → Server
stopping_at v l o h c = record {
  main = stopping;
  serving = v;
  loop = l;
  is_open = o;
  context_done = true;
  ticking = false;
  handled = h;
  closers = c;
}

can_step :
    (v : Serving) (l : Accepting) (o : Bool) (h c : ℕ)
    → IsServing v (stopping_at v l o h c)
    → IsLive v
    → CanStep (stopping_at v l o h c)
unfolding server_step listened accept_failed done_heard accept_heard error_heard
can_step listening l o h c k live =
    (listens none, stopping_at waiting accepting true h c, refl, refl)
can_step waiting l o h c k live = (hears_done, stopping_at leaving l false h c, refl, refl)
can_step leaving absent o h c k live = absurd k.0
can_step leaving accepting o h c k live =
    (accept_fails [], stopping_at leaving (refusing []) o h c, refl, refl)
can_step leaving (refusing e) o h c k live =
    (hears_accept, stopping_at (offering cancelled) gone false h c, refl, refl)
can_step leaving gone o h c k live = absurd k.0
can_step (offering e) l o h c k live =
    (hears_error, record (stopping_at over l o h c) { main = returned stopped }, refl, refl)
can_step over l o h c k live = absurd live

ending : (m : Main) (s : Server) → s.main ≡ m → IsEnding s → (s.main ≡ returned stopped) ⊎ CanStep s
ending selecting s is h = absurd (subst IsStopping is h.1)
ending stopping s is h =
    let (live, done, quiet) = subst (λ m. IsMain m s) is h.0.1 in
    let same : stopping_at s.serving s.loop s.is_open s.handled s.closers ≡ s = ground arith in
    inr (
      subst CanStep same (
        can_step s.serving s.loop s.is_open s.handled s.closers
          (subst (IsServing s.serving) (sym same) h.0.0) live))
ending (returned stopped) s is h = inl is
ending (returned (failed e)) s is h = absurd (subst IsStopping is h.1)

-- Once Run has heard a Close, at most five steps of its goroutines are left, whatever net.Listen and
-- Accept answer and whatever the order; and until Run has returned `socks5: stopped`, one of them can
-- be taken. Calls of Close and accepted connections are not counted.
pub run_each-stops :
    (before after : List Event) (s t : Server)
    → run_each server_step before started ≡ some s
    → s.main ≡ stopping
    → run_each server_step after s ≡ some t
    → (own_steps after ≤ 5) × ((t.main ≡ returned stopped) ⊎ CanStep t)
run_each-stops before after s t at_ stops then_ =
    let ends : IsStopping s.main = subst IsStopping (sym stops) tt in
    let (h, few) = run_each-left after s t then_ (reached-IsServer before s at_, ends) in
    let most = left_at-≤ s.serving s.loop in (omega arith, ending t.main t refl h)
