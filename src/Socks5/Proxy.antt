-- ===== src/Socks5/Proxy.antt =====
-- ProxyData of socks5/socks5.go: two goroutines copy, one for each direction, and put the outcome of
-- each copy on a channel with two places, from which ProxyData reads until one is an error. The
-- timer, and the connections that Handle closes, make copies fail; a copy may have any outcome.
mod Examples
use booster.Common.{
  Bool-cases, ℕ, suc, zero, ◌+◌, ◌-◌, ◌*◌, ◌≤◌, ◌<◌, ◌≡◌, refl, ap, ◌⊎◌, inl, inr, Bool, true,
  false, Option, none, some, List, [], ◌∷◌, ◌++◌, arith, ltb, length, length-append, Bytes,
}
use booster.Link.Bandwidth.{NetworkIo, copy_n}

-- A goroutine copies, or holds an outcome that is to go to the channel.
pub data Side : Type 0 where
  copying : Side
  holding : Option Bytes → Side

pub record Proxying : Type 0 where
  pub download_io : NetworkIo
  pub upload_io : NetworkIo
  pub download : Side
  pub upload : Side
  pub channel : List (Option Bytes)
  pub returned : Bool

unfoldable pub proxy_data : NetworkIo → NetworkIo → Proxying
proxy_data d u = record {
  download_io = d;
  upload_io = u;
  download = copying;
  upload = copying;
  channel = [];
  returned = false;
}

-- `_, err := s.DownloadIO.CopyN(src, dst, s.ChunkSize)`
unfoldable pub download_copied : ℕ × Option Bytes → Proxying → Proxying
download_copied c p =
    let r = copy_n c p.download_io in record p { download_io = r.1; download = holding r.0.1 }

unfoldable pub upload_copied : ℕ × Option Bytes → Proxying → Proxying
upload_copied c p =
    let r = copy_n c p.upload_io in record p { upload_io = r.1; upload = holding r.0.1 }

-- `for err := range c { if err != nil { return } … }`
abbrev is_error : Option Bytes → Bool
is_error none = false
is_error (some e) = true

unfoldable pub received : Option Bytes → List (Option Bytes) → Proxying → Proxying
received e rest p = record p { channel = rest; returned = is_error e }

pub data Step (p : Proxying) : Proxying → Type 0 where
  downloads : (c : ℕ × Option Bytes) → p.download ≡ copying → Step p (download_copied c p)
  uploads : (c : ℕ × Option Bytes) → p.upload ≡ copying → Step p (upload_copied c p)
  hands_download :
      (e : Option Bytes)
      → p.download ≡ holding e
      → length p.channel < 2
      → Step p (record p { download = copying; channel = p.channel ++ e ∷ [] })
  hands_upload :
      (e : Option Bytes)
      → p.upload ≡ holding e
      → length p.channel < 2
      → Step p (record p { upload = copying; channel = p.channel ++ e ∷ [] })
  receives :
      (e : Option Bytes) (rest : List (Option Bytes))
      → p.returned ≡ false
      → p.channel ≡ e ∷ rest
      → Step p (received e rest p)

pub data Steps : ℕ → Proxying → Proxying → Type 0 where
  done : {p : Proxying} → Steps 0 p p
  more : {n : ℕ} {p q r : Proxying} → Step p q → Steps n q r → Steps (suc n) p r

-- The copies that a goroutine can still begin or end.
abbrev pub due : Side → ℕ
due copying = 1
due (holding e) = 0

abbrev pub left : Proxying → ℕ
left p = 2 * (2 - length p.channel) + due p.download + due p.upload

Step-left :
    (p q : Proxying) → Step p q → p.returned ≡ true → (q.returned ≡ true) × (left q + 1 ≤ left p)
unfolding download_copied upload_copied received
Step-left p q (downloads c e) h = (h, let k = ap due e in omega (arith, k))
Step-left p q (uploads c e) h = (h, let k = ap due e in omega (arith, k))
Step-left p q (hands_download x e room) h =
    (h, let k = ap due e in omega (arith, k, room, length-append p.channel (x ∷ [])))
Step-left p q (hands_upload x e room) h =
    (h, let k = ap due e in omega (arith, k, room, length-append p.channel (x ∷ [])))
Step-left p q (receives x rest e f) h = absurd (ground arith)

Steps-left :
    (n : ℕ) (p q : Proxying)
    → Steps n p q
    → p.returned ≡ true
    → (q.returned ≡ true) × (n + left q ≤ left p)
Steps-left n p q done h = (h, omega arith)
Steps-left n p q (more {n = m} {q = x} step rest) h =
    let (h', l) = Step-left p x step h in
    let (h2, l2) = Steps-left m x q rest h' in (h2, omega arith)

due-bound : (s : Side) → due s ≤ 1
due-bound copying = omega arith
due-bound (holding e) = omega arith

abbrev pub IsHolding : Side → Type 0
IsHolding copying = ⊥
IsHolding (holding e) = Unit {0}

-- A goroutine can go on, or waits for ever.
goes_on :
    (q : Proxying) (d u : Side)
    → q.download ≡ d
    → q.upload ≡ u
    → ((r : Proxying) × Step q r) ⊎ (IsHolding d × IsHolding u × (2 ≤ length q.channel))
goes_on q copying u ed eu = inl (_, downloads (0, none) ed)
goes_on q (holding e) copying ed eu = inl (_, uploads (0, none) eu)
goes_on q (holding e) (holding e') ed eu = elim (Bool-cases (ltb (length q.channel) 2)) [
  | inl room ↦ inl (_, hands_download e ed (ground arith))
  | inr full ↦ inr (tt, tt, ground arith)
]

-- Once ProxyData has returned, its goroutines take six steps at most, and neither of them ends:
-- where no step is left, both hold an outcome for the channel, which is full and is not read.
pub proxy_data_leaks :
    (n : ℕ) (p q : Proxying)
    → p.returned ≡ true
    → Steps n p q
    → (n ≤ 6)
      × (((r : Proxying) × Step q r)
          ⊎ (IsHolding q.download × IsHolding q.upload × (2 ≤ length q.channel)))
proxy_data_leaks n p q h steps =
    let (h', l) = Steps-left n p q steps h in
    (
      omega (arith, due-bound p.download, due-bound p.upload, l),
      goes_on q q.download q.upload refl refl,
    )
