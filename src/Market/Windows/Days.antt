-- ===== src/Market/Windows/Days.antt =====
-- A window is a number of whole days of Shanghai.
use shanghai_home_radar.Prelude.{ℕ, ◌≡◌, ◌↔◌, ◌+◌, ◌*◌, ◌/◌, ◌≤◌, ◌<◌, true, ok, arith}
use shanghai_home_radar.Market.Windows.{
  ObservationWindow, day, ahead, within_window, closed_day_window,
}

-- The date of the instant in Shanghai.
abbrev pub shanghai_date : ℕ → ℕ
shanghai_date t = (t + ahead) / day

-- The bounds of a window, against the date.
in_bounds :
    (as_of n t s e : ℕ)
    → n * day + ahead ≤ (as_of + 1) * day
    → s + n * day + ahead ≡ (as_of + 1) * day
    → e + ahead ≡ (as_of + 1) * day
    → ((s ≤ t) × (t < e)) ↔ ((as_of < shanghai_date t + n) × (shanghai_date t ≤ as_of))
in_bounds as_of n t s e fits from to = (
  λ (lo, hi). (omega (arith, from, lo), omega (arith, to, hi)),
  λ (lo, hi). (omega (arith, from, lo), omega (arith, to, hi)),
)

closed_day_window-did :
    (as_of n : ℕ) (w : ObservationWindow)
    → closed_day_window as_of n ≡ ok w
    → (n * day + ahead ≤ (as_of + 1) * day)
      × (w.start_at + n * day + ahead ≡ (as_of + 1) * day)
      × (w.end_at + ahead ≡ (as_of + 1) * day)
unfolding closed_day_window
closed_day_window-did as_of n w h = ground (arith, h)

-- An instant with a zone lies in the window of `n` days up to a date exactly if its date in Shanghai
-- is that date or one of the n - 1 days before it.
pub within_window-closed_day_window_iff :
    (as_of n t : ℕ) (w : ObservationWindow)
    → closed_day_window as_of n ≡ ok w
    → (within_window w (record { is_aware = true; at = t }) ≡ ok true)
      ↔ ((as_of < shanghai_date t + n) × (shanghai_date t ≤ as_of))
unfolding within_window
within_window-closed_day_window_iff as_of n t w h =
    let (fits, from, to) = closed_day_window-did as_of n w h in
    let both = in_bounds as_of n t w.start_at w.end_at fits from to in
    (λ e. both.0 (ground (arith, e)), λ e. ground (arith, both.1 e))
