-- ===== src/Domain/User.antt =====
-- backend/src/domain/entities/user.py and value_objects/role.py: the fields that the core reads.
use superion.Prelude.{String, Bool, true, false}

pub data Role : Type 0 where
  technician supervisor rag_admin : Role

pub record User : Type 0 where
  pub id : String
  pub email : String
  pub password_hash : String
  pub full_name : String
  pub role : Role
  pub plant_id : String
  pub is_blocked : Bool

-- `role in (Role.SUPERVISOR, Role.RAG_ADMIN)`
abbrev pub is_plant_reader : Role → Bool
is_plant_reader Role.technician = false
is_plant_reader Role.supervisor = true
is_plant_reader Role.rag_admin = true
