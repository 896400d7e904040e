-- ===== src/Core/ModelInfo.antt =====
-- Model descriptions: crates/gravity-core/src/model_info.rs.
use rasp_api_gravity.Base.Bytes.{Text}
use rasp_api_gravity.Base.{List, [], Option, none, some}

pub record ModelInfo : Type 0 where
  pub id : Text
  pub display_name : Option Text
  pub description : Option Text
  pub tags : List Text

unfoldable pub bare_model : Text → ModelInfo
bare_model id = record { id = id; display_name = none; description = none; tags = [] }

unfoldable pub named_model : Text → Text → ModelInfo
named_model id display_name = record {
  id = id;
  display_name = some display_name;
  description = none;
  tags = [];
}
