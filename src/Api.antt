-- ===== src/Api.antt =====
-- api/v1alpha1/types.go: the ClawInstance resource, and the errors of the clients that serve it.
use clawbake.Base.{ℕ, String, List, Option, Text, Bool}

-- What the program asks of an error: whether it is one of the kinds it knows, and its message.
pub data Kind : Type 0 where
  not_found already_exists no_rows other : Kind

pub record Error : Type 0 where
  pub kind : Kind
  pub message : String

pub data Result {ℓ} (A : Type ℓ) : Type ℓ where
  ok : A → Result A
  err : Error → Result A

abbrev pub is_not_found : Error → Bool
is_not_found e = elim e.kind [ not_found ↦ Bool.true | _ ↦ Bool.false ]

abbrev pub is_already_exists : Error → Bool
is_already_exists e = elim e.kind [ already_exists ↦ Bool.true | _ ↦ Bool.false ]

abbrev pub is_no_rows : Error → Bool
is_no_rows e = elim e.kind [ no_rows ↦ Bool.true | _ ↦ Bool.false ]

abbrev pub phase_pending : String
phase_pending = "Pending"

abbrev pub phase_creating : String
phase_creating = "Creating"

abbrev pub phase_starting : String
phase_starting = "Starting"

abbrev pub phase_running : String
phase_running = "Running"

abbrev pub phase_failed : String
phase_failed = "Failed"

abbrev pub phase_terminating : String
phase_terminating = "Terminating"

pub record ResourceList : Type 0 where
  pub cpu : String
  pub memory : String

pub record ClawInstanceResources : Type 0 where
  pub requests : ResourceList
  pub limits : ResourceList

pub record ClawInstanceStorage : Type 0 where
  pub size : String
  pub storage_class : String

-- `config_generation` is an int64, kept as its bit pattern below 2 ^ 64.
pub record ClawInstanceSpec : Type 0 where
  pub user_id : String
  pub image : String
  pub gateway_token : String
  pub gateway_config : Text
  pub config_generation : ℕ
  pub resources : ClawInstanceResources
  pub storage : ClawInstanceStorage

pub record Condition : Type 0 where
  pub type : String
  pub status : Bool
  pub reason : String
  pub message : String
  pub observed_generation : ℕ

pub record ClawInstanceStatus : Type 0 where
  pub phase : String
  pub namespace : String
  pub conditions : List Condition

-- Of the object's metadata, the fields that the program reads or writes.
pub record ClawInstance : Type 0 where
  pub name : String
  pub namespace : String
  pub labels : List (String × String)
  pub generation : ℕ
  pub deletion_timestamp : Option ℕ
  pub finalizers : List String
  pub spec : ClawInstanceSpec
  pub status : ClawInstanceStatus
