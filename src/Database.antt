-- ===== src/Database.antt =====
-- internal/database: the rows and the parameters of the queries. A `pgtype.Text` is an `Option`,
-- and the UUID of a user is the text that its `Value` method gives.
pub mod Store
pub mod Consistency
pub mod Accounts
use clawbake.Base.{String, Option, Text}

pub record User : Type 0 where
  pub id : String
  pub email : String
  pub name : String
  pub picture : Option String
  pub role : String
  pub oidc_subject : String
  pub slack_user_id : Option String

pub record InstanceDefault : Type 0 where
  pub id : String
  pub image : String
  pub cpu_request : String
  pub memory_request : String
  pub cpu_limit : String
  pub memory_limit : String
  pub storage_size : String
  pub gateway_config : Text

pub record UpdateDefaultsParams : Type 0 where
  pub image : String
  pub cpu_request : String
  pub memory_request : String
  pub cpu_limit : String
  pub memory_limit : String
  pub storage_size : String
  pub gateway_config : Text

pub record CreateUserParams : Type 0 where
  pub email : String
  pub name : String
  pub picture : Option String
  pub role : String
  pub oidc_subject : String
  pub slack_user_id : Option String

pub record UpdateUserParams : Type 0 where
  pub id : String
  pub email : Option String
  pub name : Option String
  pub picture : Option String
  pub role : Option String
  pub oidc_subject : Option String
  pub slack_user_id : Option String
