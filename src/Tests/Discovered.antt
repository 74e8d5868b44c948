-- ===== src/Tests/Discovered.antt =====
-- Where the bundle is, for the program in a checkout.
use home_stack.Prelude.{ℕ, ◌+◌, ◌≤◌, arith, Bool, ◌≡◌, refl, some, none, String, ◌==◌, ok, err}
use home_stack.Prelude.Paths.Shorter.{size}
use home_stack.Discover.{climb, start, bundle_from_path, discover_bundle_dir, not_discovered}
use home_stack.Discover.Climb.{IsFound, bundle_from_path_lem}
use home_stack.Tests.Bundle.{getenv}

abbrev executable : String
executable = "/opt/home-stack/admin/bin/admin"

abbrev is_file : String → Bool
is_file path = path == executable

found : bundle_from_path is_file executable ≡ some "/opt/home-stack"
unfolding bundle_from_path climb start home_stack.Prelude.Paths.dir home_stack.Prelude.Paths.clean
    home_stack.Prelude.Paths.up_to_slash home_stack.Prelude.Paths.base
found = refl

from_working_dir :
    discover_bundle_dir getenv is_file (some "/usr/bin/admin") (some "/opt/home-stack/admin/")
    ≡ ok "/opt/home-stack"
unfolding discover_bundle_dir bundle_from_path getenv home_stack.Prelude.lookup climb start
    home_stack.Prelude.Paths.base home_stack.Prelude.Paths.dir home_stack.Prelude.Paths.clean
    home_stack.Prelude.Paths.up_to_slash
from_working_dir = refl

outside : discover_bundle_dir getenv is_file none (some "/tmp/admin") ≡ err not_discovered
unfolding discover_bundle_dir bundle_from_path getenv home_stack.Prelude.lookup climb start
    home_stack.Prelude.Paths.base home_stack.Prelude.Paths.dir home_stack.Prelude.Paths.clean
    home_stack.Prelude.Paths.up_to_slash
outside = refl

enough : size (start is_file executable) + 3 ≤ 40
unfolding start home_stack.Prelude.Paths.dir home_stack.Prelude.Paths.clean
    home_stack.Prelude.Paths.up_to_slash
enough = omega arith

bundle_from_path_lem_example :
    (climb 40 (start is_file executable) ≡ some (bundle_from_path is_file executable))
    × IsFound (start is_file executable) (bundle_from_path is_file executable)
bundle_from_path_lem_example = bundle_from_path_lem is_file executable 40 enough
