-- ===== src/Discover.antt =====
-- portable/home-stack/admin/main.go, `discoverBundleDir` and `bundleFromPath`: where the bundle is that
-- the program serves.
pub mod Climb
use home_stack.Prelude.{
  ℕ, zero, suc, ◌+◌, Bool, true, false, ◌&&◌, ◌≡◌, refl, List, [], ◌∷◌, Option, none, some, String,
  ◌==◌, has_prefix, if◌then◌else◌, Result, ok, err,
}
use home_stack.Prelude.Paths
use home_stack.Prelude.Paths.Shorter.{size}
use home_stack.Launchd.{Environment}

abbrev pub is_admin_dir : String → Bool
is_admin_dir dir = Paths.base dir == "admin" && Paths.base (Paths.dir dir) == "home-stack"

-- The loop, on fuel: `none` where it runs out, else what the function returns.
unfoldable pub climb : ℕ → String → Option (Option String)
climb zero dir = none
climb (suc n) dir =
    let parent = Paths.dir dir in
    let further = climb n parent in
    if is_admin_dir dir then some (some parent) else if parent == dir then some none else further

-- `is_file` says that os.Stat finds the path, and that it is no directory.
unfoldable pub start : (String → Bool) → String → String
start is_file path = if is_file path then Paths.dir path else path

abbrev answer : Option (Option String) → Option String
answer none = none
answer (some found) = found

unfoldable pub bundle_from_path : (String → Bool) → String → Option String
bundle_from_path is_file path = answer (climb (size (start is_file path) + 3) (start is_file path))

pub data DiscoverError : Type 0 where
  no_working_dir : DiscoverError
  not_discovered : DiscoverError

-- `filepath.Abs`, which asks for the working directory of a path that is not absolute.
abbrev absolute : Option String → String → Result DiscoverError String
absolute wd path =
    if has_prefix path "/"
    then ok (Paths.clean path)
    else elim wd [ none ↦ err no_working_dir | some dir ↦ ok (Paths.join (dir ∷ path ∷ [])) ]

abbrev from_working_dir : (String → Bool) → Option String → Result DiscoverError String
from_working_dir is_file none = err no_working_dir
from_working_dir is_file (some wd) = elim (bundle_from_path is_file wd) [
  | some dir ↦ ok dir
  | none ↦ err not_discovered
]

abbrev from_executable : (String → Bool) → Option String → Option String
from_executable is_file none = none
from_executable is_file (some exe) = bundle_from_path is_file exe

-- `exe` and `wd` are os.Executable and os.Getwd, where they succeed.
unfoldable pub discover_bundle_dir :
    Environment → (String → Bool) → Option String → Option String → Result DiscoverError String
unfolding bundle_from_path
discover_bundle_dir getenv is_file exe wd =
    if getenv "HOME_STACK_BUNDLE_DIR" == ""
    then (elim (from_executable is_file exe) [
      | some dir ↦ ok dir
      | none ↦ from_working_dir is_file wd
    ])
    else absolute wd (getenv "HOME_STACK_BUNDLE_DIR")
