-- ===== src/Catalog/Components.antt =====
-- Catalog/ComponentDescriptor.h and Catalog/ComponentCatalog.h of source/ARTestEngine.Core. The map
-- is only searched by its keys, so it is a table in the order of insertion.
use artest_cli.Base.{
  ◌||◌, Option, none, some, List, [], ◌∷◌, ◌++◌, String, str_eq, is_empty, if◌then◌else◌,
}
use artest_cli.Diagnostics.{OperationResult, success, failure}
use artest_cli.Registry.Creators.{Table, holds, lookup}

pub data ComponentKind : Type 0 where
  command instrument_driver tool : ComponentKind

pub record SchemaBinding (J : Type 0) : Type 0 where
  pub role : String
  pub schema_id : String
  pub media_type : String
  pub relative_path : String
  pub document : J

pub record ComponentDescriptor (J : Type 0) : Type 0 where
  pub kind : ComponentKind
  pub type_id : String
  pub contract_id : String
  pub version : String
  pub display_name : String
  pub aliases : List String
  pub capabilities : List String
  pub required_contracts : List String
  pub schemas : List (SchemaBinding J)
  pub flags : List String
  pub validation_code : String
  pub unavailable_code : String

abbrev pub Components : Type 0 → Type 0
Components J = Table (ComponentDescriptor J)

-- The map with more names, or the name that is empty or taken.
pub data Naming (J : Type 0) : Type 0 where
  named : Components J → Naming J
  taken : String → Naming J

module _ {J : Type 0} where
  -- `Schema`: the first binding of a role.
  unfoldable pub schema : String → List (SchemaBinding J) → Option (SchemaBinding J)
  schema role [] = none
  schema role (b ∷ bs) = if str_eq b.role role then some b else schema role bs

  abbrev pub names : ComponentDescriptor J → List String
  names d = d.aliases ++ d.type_id ∷ []

  unfoldable pub add_names : ComponentDescriptor J → List String → Components J → Naming J
  add_names d [] t = named t
  add_names d (n ∷ ns) t =
      let rest = add_names d ns (t ++ (n, d) ∷ []) in
      if is_empty n || holds n t then taken n else rest

  unfoldable pub add_all : List (ComponentDescriptor J) → Components J → Naming J
  add_all [] t = named t
  add_all (d ∷ ds) t = elim (add_names d (names d) t) [
    | named t' ↦ add_all ds t'
    | taken n ↦ taken n
  ]

  -- `Add`: the map is exchanged only when all names were added.
  unfoldable pub add : List (ComponentDescriptor J) → Components J → OperationResult × Components J
  add ds t = elim (add_all ds t) [
    | named t' ↦ (success, t')
    | taken n ↦ (
      failure "EXTENSION_COMPONENT_DUPLICATE"
          "Component identities and aliases must be globally unique." n,
      t,
    )
  ]

  -- `Find`.
  abbrev pub find : String → Components J → Option (ComponentDescriptor J)
  find n t = lookup n t
