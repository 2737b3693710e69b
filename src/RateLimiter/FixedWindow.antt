-- ===== src/RateLimiter/FixedWindow.antt =====
-- What a fixed-window limiter promises, as each address sees it: a count of the attempts since the
-- window was opened, until the window closes.
use app_home_services.Base.{
  ℕ, ◌+◌, ◌-◌, Bool, Option, none, some, List, [], ◌∷◌, ltb, leb, nat_beq, ◌==◌, if◌then◌else◌,
  from_secs,
}
use app_home_services.Net.Addr.{IpAddr, ip_eq}

pub data Window : Type 0 where
  window : ℕ → ℕ → Window

abbrev pub Windows : Type 0
Windows = IpAddr → Option Window

-- The calls of the port `RateLimiter`, and what they answer.
pub data Op : Type 0 where
  checks records tries asks resets : Op

pub data Answer : Type 0 where
  allowed : Bool → Answer
  left_over : ℕ → Answer
  done : Answer

-- The attempts counted in the window that is open.
abbrev pub spent : ℕ → Option Window → ℕ
spent now none = 0
spent now (some (window n closes)) = if ltb now closes then n else 0

-- One attempt more: the first one opens the window.
abbrev pub recorded : ℕ → ℕ → Option Window → Window
recorded secs now none = window 1 (now + from_secs secs)
recorded secs now (some (window n closes)) =
    if ltb now closes
    then (if nat_beq n 0 then window 1 (now + from_secs secs) else window (n + 1) closes)
    else window 1 (now + from_secs secs)

abbrev pub update : Windows → IpAddr → Option Window → Windows
update w ip x j = if ip == j then x else w j

unfoldable pub step : ℕ → ℕ → Windows → Op → ℕ → IpAddr → Windows × Answer
step budget secs w checks now ip = (w, allowed (ltb (spent now (w ip)) budget))
step budget secs w records now ip = (update w ip (some (recorded secs now (w ip))), done)
step budget secs w tries now ip =
    (update w ip (some (recorded secs now (w ip))), allowed (leb (spent now (w ip) + 1) budget))
step budget secs w asks now ip = (w, left_over (budget - spent now (w ip)))
step budget secs w resets now ip = (update w ip none, done)

-- The calls in order, each with its instant and its address.
unfoldable pub run : ℕ → ℕ → Windows → List (Op × ℕ × IpAddr) → List Answer
run budget secs w [] = []
run budget secs w ((op, now, ip) ∷ rest) =
    let (w', answer) = step budget secs w op now ip in answer ∷ run budget secs w' rest
