-- ===== src/Sources.antt =====
-- src/source_registry.rs: the sources that are known.
use disaster_alert.Prelude.{
  ℕ, ◌*◌, Bool, true, false, ◌&&◌, Option, none, some, List, [], ◌∷◌, find?,
}
use disaster_alert.Prelude.Int.{ℤ, pos}
use disaster_alert.Text.{Text, text, text_eq}
use disaster_alert.Event.{
  DisasterCategory, earthquake_warning, earthquake_report, ProviderChannel, wolfx, huania,
  fan_studio,
}

pub record SourceDefinition : Type 0 where
  pub id : Text
  pub provider_key : Text
  pub channel : ProviderChannel
  pub category : DisasterCategory
  pub group_id : Text
  pub group_label : Text
  pub label : Text
  pub default_utc_offset_seconds : Option ℤ

abbrev warning_source : Text → Text → Text → ℕ → SourceDefinition
warning_source id key label hours = record {
  id = id;
  provider_key = key;
  channel = wolfx;
  category = earthquake_warning;
  group_id = text "wolfx-earthquake-warning";
  group_label = text "Wolfx 地震预警";
  label = label;
  default_utc_offset_seconds = some (pos (hours * 3600));
}

unfoldable pub sources : List SourceDefinition
sources =
    warning_source (text "wolfx.jma_eew") (text "jma_eew") (text "Wolfx 日本气象厅") 9
    ∷ warning_source (text "wolfx.sc_eew") (text "sc_eew") (text "Wolfx 四川地震局") 8
    ∷ warning_source (text "wolfx.cenc_eew") (text "cenc_eew") (text "Wolfx 中国地震台网") 8
    ∷ warning_source (text "wolfx.fj_eew") (text "fj_eew") (text "Wolfx 福建地震局") 8
    ∷ warning_source (text "wolfx.cq_eew") (text "cq_eew") (text "Wolfx 重庆地震局") 8
    ∷ (record {
      id = text "wolfx.cenc_eqlist";
      provider_key = text "cenc_eqlist";
      channel = wolfx;
      category = earthquake_report;
      group_id = text "wolfx-earthquake-report";
      group_label = text "Wolfx 地震信息";
      label = text "Wolfx 中国地震台网测定";
      default_utc_offset_seconds = some (pos (8 * 3600));
    })
    ∷ []

-- `find`.
unfoldable pub find_source : Text → Option SourceDefinition
unfolding sources find? text_eq
find_source id = find? (λ source. text_eq source.id id) sources

unfoldable pub channel_eq : ProviderChannel → ProviderChannel → Bool
channel_eq wolfx wolfx = true
channel_eq huania huania = true
channel_eq fan_studio fan_studio = true
channel_eq _ _ = false

unfoldable pub find_provider : ProviderChannel → Text → Option SourceDefinition
unfolding sources find? text_eq channel_eq
find_provider channel provider_key =
    find? (λ source. channel_eq source.channel channel && text_eq source.provider_key provider_key)
      sources

unfoldable pub default_utc_offset_seconds : Text → Option ℤ
unfolding find_source
default_utc_offset_seconds source = elim (find_source source) [
  | none ↦ none
  | some definition ↦ definition.default_utc_offset_seconds
]
