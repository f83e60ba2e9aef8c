-- ===== src/Domain/Asset.antt =====
-- backend/src/domain/entities/asset.py.
use superion.Prelude.{String}

pub record Asset : Type 0 where
  pub id : String
  pub plant_id : String
  pub tag : String
  pub name : String
  pub model : String
  pub manufacturer : String
  pub current_manual_id : String
