-- ===== src/Collector/Changes.antt =====
-- services/collector/src/home_radar_collector/change_detection.py
use shanghai_home_radar.Prelude.{
  Bool, Option, none, some, List, [], ◌∷◌, Decimal, ltb_ℤ, if◌then◌else◌,
}
use shanghai_home_radar.Collector.Domain.{ListingEventType, EventValue, nothing, price}

pub record DetectedChange : Type 0 where
  pub event_type : ListingEventType
  pub previous_value : EventValue
  pub current_value : EventValue

-- The price of a known listing against the one before.
unfoldable pub price_changes : Option Decimal → Decimal → List DetectedChange
price_changes none current = []
price_changes (some previous) current =
    if ltb_ℤ current previous
    then record {
      event_type = ListingEventType.price_cut;
      previous_value = price previous;
      current_value = price current;
    }
      ∷ []
    else if ltb_ℤ previous current
    then record {
      event_type = ListingEventType.price_increase;
      previous_value = price previous;
      current_value = price current;
    }
      ∷ []
    else []

unfoldable pub detect_observation_changes : Bool → Option Decimal → Decimal → List DetectedChange
unfolding price_changes
detect_observation_changes is_new previous current =
    if is_new
    then record {
      event_type = ListingEventType.new;
      previous_value = nothing;
      current_value = price current;
    }
      ∷ []
    else price_changes previous current
