-- ===== src/Market/Windows.antt =====
-- services/market/src/home_radar_market/windows.py. An instant is the number of microseconds since the
-- first of January of the year 1, a date the number of its days since then; Shanghai is eight hours
-- ahead of UTC, as it has been since 1991. The end of the calendar in the year 9999 is left out, and
-- a number of days below 0, which the source refuses like 0, does not occur.
pub mod Days
use shanghai_home_radar.Prelude.{
  ℕ, ◌+◌, ◌-◌, ◌*◌, ◌/◌, Bool, not, ◌&&◌, Result, ok, value_error, overflow_error, raise_if, ◌>>◌,
  leb, ltb, ◌==◌, if◌then◌else◌,
}

pub record ObservationWindow : Type 0 where
  pub start_at : ℕ
  pub end_at : ℕ

-- An instant that a caller gives, with whether it has a zone.
pub record Instant : Type 0 where
  pub is_aware : Bool
  pub at : ℕ

abbrev pub day : ℕ
day = 86400000000

-- The offset of Shanghai.
abbrev pub ahead : ℕ
ahead = 28800000000

-- `ObservationWindow.contains`
unfoldable pub within_window : ObservationWindow → Instant → Result Bool
within_window w t = do
  raise_if (not t.is_aware) (value_error "observed_at must be timezone-aware")
  ok (leb w.start_at t.at && ltb t.at w.end_at)

-- A start before the year 1 is not a time.
unfoldable pub closed_day_window : ℕ → ℕ → Result ObservationWindow
closed_day_window as_of window_days = do
  raise_if (window_days == 0) (value_error "window_days must be positive")
  let local_end = (as_of + 1) * day
  raise_if (ltb local_end (window_days * day + ahead)) (overflow_error "date value out of range")
  ok (record { start_at = local_end - window_days * day - ahead; end_at = local_end - ahead })
