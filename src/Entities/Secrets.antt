-- ===== src/Entities/Secrets.antt =====
-- The tables of keys (src/kms-cmk, src/kms-data-key) and what a token of a session says.
use nestjs_ex.Prelude.{Bool, List, Option, String, ℕ}

pub record KmsCmk : Type 0 where
  pub id : ℕ
  pub region : String
  pub arn : String
  pub id_enabled : Bool

-- The column `dataKey` is the JSON text of the two fields `plain` and `cipher`.
pub record KmsDataKey : Type 0 where
  pub id : ℕ
  pub cmk_id : ℕ
  pub plain : String
  pub cipher : String
  pub id_enabled : Bool

-- The payload of a token: a refresh token has the subject alone.
pub record TokenClaims : Type 0 where
  pub sub : ℕ
  pub username : Option String
  pub roles : Option (List String)
