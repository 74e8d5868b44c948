-- ===== src/Edits.antt =====
-- portable/home-stack/admin/registry.go, `AddService` and `RemoveService`, with engine.go,
-- `loadRegistry`: edits of the profile's services.yaml and of the temporary file beside it.
pub mod Atomic
use home_stack.Prelude.{
  Bool, true, false, List, [], ◌∷◌, Option, none, some, String, ◌==◌, Map, lookup, insert, erase,
  if◌then◌else◌, Result, ok, err,
}
use home_stack.Registry.{Service, Registry}
use home_stack.Validate.{validate, ValidationError}

pub data File : Type 0 where
  missing : File
  unreadable : File
  holds : String → File

-- `services.yaml` and `services.yaml.tmp`.
pub record Disk : Type 0 where
  pub registry : File
  pub temp : File

pub data LoadError : Type 0 where
  not_exist : LoadError
  not_readable : LoadError
  malformed : LoadError
  no_parent_domain : LoadError
  invalid : ValidationError → LoadError

pub data EditError : Type 0 where
  not_loaded : LoadError → EditError
  parent_domain_unset : EditError
  validation_failed : ValidationError → EditError
  not_marshalled : EditError
  not_written : EditError
  written_invalid : LoadError → EditError
  not_renamed : EditError

-- The YAML library, the environment, and how the disk behaves: `partial` is what a write that fails
-- leaves in the temporary file.
pub record System : Type 0 where
  pub marshal : Registry → Option String
  pub unmarshal : String → Option Registry
  pub parent_domain : String
  pub can_write : Bool
  pub partial : File
  pub can_rename : Bool
  pub can_remove : Bool

module _ (sys : System) where
  -- `loadRegistry`, once the text is parsed.
  unfoldable pub check_loaded : Registry → Result LoadError Registry
  check_loaded r =
      if sys.parent_domain == ""
      then err no_parent_domain
      else elim (validate r sys.parent_domain) [ err e ↦ err (invalid e) | ok _ ↦ ok r ]

  unfoldable pub load_registry : File → Result LoadError Registry
  load_registry missing = err not_exist
  load_registry unreadable = err not_readable
  load_registry (holds data_) = elim (sys.unmarshal data_) [
    | none ↦ err malformed
    | some r ↦ check_loaded r
  ]

  -- `os.Remove` of the temporary file, whose error is dropped.
  abbrev pub remove_temp : Disk → Disk
  remove_temp disk = if sys.can_remove then record disk { temp = missing } else disk

  -- The second half of both edits, once the temporary file is written.
  unfoldable pub commit : String → Disk → Result EditError (Unit {0}) × Disk
  commit text disk = elim (load_registry disk.temp) [
    | err e ↦ (err (written_invalid e), remove_temp disk)
    | ok _ ↦
        if sys.can_rename
        then (ok tt, record { registry = disk.temp; temp = missing })
        else (err not_renamed, remove_temp disk)
  ]

  unfoldable pub write_registry : Registry → Disk → Result EditError (Unit {0}) × Disk
  write_registry r disk = elim (sys.marshal r) [
    | none ↦ (err not_marshalled, disk)
    | some text ↦
        if sys.can_write
        then commit text (record disk { temp = holds text })
        else (err not_written, record disk { temp = sys.partial })
  ]

  -- `AddService`, once the registry is loaded.
  unfoldable pub add_to : Registry → String → Service → Disk → Result EditError (Unit {0}) × Disk
  add_to r name svc disk =
      let edited : Registry = record { services = insert name svc r.services } in
      if sys.parent_domain == ""
      then (err parent_domain_unset, disk)
      else elim (validate edited sys.parent_domain) [
        | err e ↦ (err (validation_failed e), disk)
        | ok _ ↦ write_registry edited disk
      ]

  unfoldable pub add_service : String → Service → Disk → Result EditError (Unit {0}) × Disk
  add_service name svc disk = elim (load_registry disk.registry) [
    | ok r ↦ add_to r name svc disk
    | err e ↦ elim e [
      | not_exist ↦ add_to (record { services = [] }) name svc disk
      | not_readable ↦ (err (not_loaded not_readable), disk)
      | malformed ↦ (err (not_loaded malformed), disk)
      | no_parent_domain ↦ (err (not_loaded no_parent_domain), disk)
      | invalid v ↦ (err (not_loaded (invalid v)), disk)
    ]
  ]

  -- `RemoveService`, once the registry is loaded.
  unfoldable pub remove_from : Registry → String → Disk → Result EditError (Unit {0}) × Disk
  remove_from r name disk = elim (lookup name r.services) [
    | none ↦ (ok tt, disk)
    | some svc ↦ write_registry (record { services = erase name r.services }) disk
  ]

  unfoldable pub remove_service : String → Disk → Result EditError (Unit {0}) × Disk
  remove_service name disk = elim (load_registry disk.registry) [
    | ok r ↦ remove_from r name disk
    | err e ↦ elim e [
      | not_exist ↦ (ok tt, disk)
      | not_readable ↦ (err (not_loaded not_readable), disk)
      | malformed ↦ (err (not_loaded malformed), disk)
      | no_parent_domain ↦ (err (not_loaded no_parent_domain), disk)
      | invalid v ↦ (err (not_loaded (invalid v)), disk)
    ]
  ]
