-- ===== src/Event.antt =====
-- src/models/disaster.rs: the categories, the channels and the event report, with its key.
--
-- An `f64` is its bit pattern below 2^64, so that its equality and its order are those of IEEE 754
-- (`F64`). `u32` and `u8` fields are numbers.
pub mod Float
pub mod Key
pub mod Digest
pub mod Time
use disaster_alert.Prelude.{ℕ, Bool, true, false, Option, List, ◌∷◌, ◌++◌}
use disaster_alert.Text.{Text, text, byte_len}
use disaster_alert.Text.Decimal.{show}
use Float.{F64}

pub data DisasterCategory : Type 0 where
  earthquake_warning earthquake_report weather_warning tsunami typhoon : DisasterCategory

pub data ProviderChannel : Type 0 where
  wolfx huania fan_studio : ProviderChannel

unfoldable pub category_eq : DisasterCategory → DisasterCategory → Bool
category_eq earthquake_warning earthquake_warning = true
category_eq earthquake_report earthquake_report = true
category_eq weather_warning weather_warning = true
category_eq tsunami tsunami = true
category_eq typhoon typhoon = true
category_eq _ _ = false

-- `DisasterCategory::is_retired`.
unfoldable pub is_retired : DisasterCategory → Bool
is_retired weather_warning = true
is_retired tsunami = true
is_retired typhoon = true
is_retired _ = false

-- `DisasterCategory::as_str`.
unfoldable pub category_str : DisasterCategory → Text
category_str earthquake_warning = text "earthquake_warning"
category_str earthquake_report = text "earthquake_report"
category_str weather_warning = text "weather_warning"
category_str tsunami = text "tsunami"
category_str typhoon = text "typhoon"

-- `ProviderChannel::as_str`.
unfoldable pub channel_str : ProviderChannel → Text
channel_str wolfx = text "wolfx"
channel_str huania = text "huania"
channel_str fan_studio = text "fanstudio"

pub record DisasterEvent : Type 0 where
  pub category : DisasterCategory
  pub channel : ProviderChannel
  pub source : Text
  pub event_id : Text
  pub revision : Text
  pub report_num : ℕ
  pub title : Text
  pub description : Text
  pub latitude : Option F64
  pub longitude : Option F64
  pub magnitude : Option F64
  pub depth_km : Option F64
  pub affected_regions : List Text
  pub radius_km : Option F64
  pub level : ℕ
  pub occurred_at : Text
  pub final_report : Bool
  pub cancel : Bool
  pub training : Bool

-- One field of a key, `{len}:{value}`.
unfoldable pub key_field : Text → Text
unfolding show byte_len
key_field s = show (byte_len s) ++ b':' ∷ s

-- `DisasterEvent::event_key`.
unfoldable pub event_key : DisasterEvent → Text
unfolding key_field category_str
event_key e = key_field (category_str e.category) ++ (key_field e.source ++ key_field e.event_id)
