-- ===== src/Tests/Inspected.antt =====
-- The theorems on the inspection of launchd, on a machine with two agents.
use home_stack.Prelude.{
  true, false, ◌≡◌, refl, List, [], ◌∷◌, Option, none, some, String, ◌==◌, ◌<>◌, if◌then◌else◌, ok,
  ◌>>=◌,
}
use home_stack.Inspect.{Machine, parse_launchctl_field}

abbrev machine : Machine
machine = record {
  getenv = λ name. if name == "HOME_STACK_IDENTIFIER_PREFIX" then "com.example" else "";
  uid = "501";
  glob = λ dir pattern.
      if dir == "/Library/LaunchDaemons"
      then []
      else "com.example.home-stack.notes.plist" ∷ "com.example.home-stack.wiki.plist" ∷ [];
  program_from_plist = λ path. "/bin/sh";
  print = λ domain name. some "\tstate = running\n\tpid = 42\n\tpath = \"/tmp/x y\"\n";
}

field_read : parse_launchctl_field "\tstate = running\n\tpath = \"/tmp/x y\"\n" "path" ≡ "/tmp/x y"
unfolding parse_launchctl_field home_stack.Prelude.split home_stack.Prelude.has_prefix
    home_stack.Prelude.trim_space home_stack.Prelude.trim_prefix home_stack.Prelude.has_suffix
    home_stack.Prelude.trim_suffix
field_read = refl
