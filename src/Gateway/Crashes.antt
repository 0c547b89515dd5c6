-- ===== src/Gateway/Crashes.antt =====
-- When the gateway panics.
use booster.Common.{ℕ, ◌+◌, ◌≤◌, ◌≡◌, ◌⊎◌, true, false, none, some, List, [], ◌∷◌}
use booster.Gateway.{
  Handler, Event, ping_fails, hears_done, packet_refused, stream_ends, handler_step,
}

-- The pings that could not be written.
abbrev pub lost_pings : List Event → ℕ
lost_pings [] = 0
lost_pings (ping_fails ∷ es) = lost_pings es + 1
lost_pings (e ∷ es) = lost_pings es

-- The ends of the monitored connection.
abbrev pub stream_ends_in : List Event → ℕ
stream_ends_in [] = 0
stream_ends_in (stream_ends ∷ es) = stream_ends_in es + 1
stream_ends_in (e ∷ es) = stream_ends_in es

-- The event can come, and is a panic.
abbrev pub Crashes : Event → Handler → Type 0
Crashes e h = elim (handler_step e h) [ none ↦ ⊥ | some t ↦ t.crashed ≡ true ]

-- Monitor's goroutine can go on, and whatever it does next is a panic.
abbrev pub IsDoomed : Handler → Type 0
IsDoomed h = Crashes hears_done h × Crashes packet_refused h × Crashes stream_ends h

-- How a handler stands after the events.
abbrev pub Fate : List Event → Handler → Type 0
Fate es h =
    ((h.crashed ≡ false) × (lost_pings es ≡ 0))
    ⊎ ((h.crashed ≡ false) × (1 ≤ lost_pings es) × IsDoomed h)
    ⊎ ((h.crashed ≡ true) × ((1 ≤ lost_pings es) ⊎ (1 ≤ stream_ends_in es)))

-- After so many lost pings and ends.
abbrev Awaits : Handler → Type 0
Awaits h = ((h.monitoring ≡ true) × (h.count ≡ 1)) ⊎ ((h.monitoring ≡ false) × (h.count ≡ 0))

abbrev Tally : ℕ → ℕ → Handler → Type 0
Tally n k h =
    ((h.crashed ≡ false) × (n ≡ 0) × Awaits h)
    ⊎ ((h.crashed ≡ false) × (1 ≤ n) × (h.monitoring ≡ true) × (h.count ≡ 0) × (h.cancelled ≡ true))
    ⊎ ((h.crashed ≡ true) × (1 ≤ n + k))
