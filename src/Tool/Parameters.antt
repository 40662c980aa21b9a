-- ===== src/Tool/Parameters.antt =====
-- The domain objects of shared/domain/domainobject/external-tool, as far as the validation and the
-- versioning read them.
use schulcloud_server.Prelude.{ℕ, String, Bool, List, Option, true, false}
use schulcloud_server.Domain.User.{EntityId}

pub data Scope : Type 0 where
  global course_scope school_scope : Scope

pub data Location : Type 0 where
  path token query : Location

pub data ParameterType : Type 0 where
  string number boolean auto_courseid auto_coursename auto_schoolid : ParameterType

pub record Parameter : Type 0 where
  pub name : String
  pub default : Option String
  pub regex : Option String
  pub regex_comment : Option String
  pub scope : Scope
  pub location : Location
  pub type : ParameterType
  pub is_optional : Bool

pub record Tool : Type 0 where
  pub id : Option EntityId
  pub name : String
  pub parameters : Option (List Parameter)
  pub version : ℕ

pub record Entry : Type 0 where
  pub name : String
  pub value : Option String

pub record SchoolTool : Type 0 where
  pub name : Option String
  pub tool_id : EntityId
  pub parameters : List Entry
  pub tool_version : ℕ

abbrev pub same_scope : Scope → Scope → Bool
same_scope global global = true
same_scope course_scope course_scope = true
same_scope school_scope school_scope = true
same_scope _ _ = false

abbrev pub same_type : ParameterType → ParameterType → Bool
same_type string string = true
same_type number number = true
same_type boolean boolean = true
same_type auto_courseid auto_courseid = true
same_type auto_coursename auto_coursename = true
same_type auto_schoolid auto_schoolid = true
same_type _ _ = false
