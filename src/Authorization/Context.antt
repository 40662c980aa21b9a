-- ===== src/Authorization/Context.antt =====
-- actions.enum.ts, IPermissionContext in interface/permission.ts, and permission-context.builder.ts.
use schulcloud_server.Prelude.{String, List}

pub data Action : Type 0 where
  read write : Action

pub record Context : Type 0 where
  pub action : Action
  pub required_permissions : List String

-- PermissionContextBuilder.read and .write
abbrev pub reading : List String → Context
reading required = record { action = read; required_permissions = required }

abbrev pub writing : List String → Context
writing required = record { action = write; required_permissions = required }
