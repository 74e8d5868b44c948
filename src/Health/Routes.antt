-- ===== src/Health/Routes.antt =====
-- main.go, `findHostInCaddyConfig`, which `checkRoute` asks whether Caddy's running configuration
-- has a route.
use home_stack.Prelude.{
  Bool, true, false, ◌||◌, ◌&&◌, ◌≡◌, ◌↔◌, String, ◌==◌, arith, inl, inr, Bool-cases, equal_fold,
  if◌then◌else◌, Option, none, some,
}
use home_stack.Health.{CheckStatus}

-- What `json.Unmarshal` stores in an `any`, a number as the text of its digits.
mutual
  pub data Json : Type 0 where
    null : Json
    boolean : Bool → Json
    number : String → Json
    string : String → Json
    array : Values → Json
    object : Members → Json

  pub data Values : Type 0 where
    no_values : Values
    value : Json → Values → Values

  pub data Members : Type 0 where
    no_members : Members
    member : String → Json → Members → Members

unfoldable mutual
  pub find_host : Json → String → Bool
  find_host null host = false
  find_host (boolean b) host = false
  find_host (number n) host = false
  find_host (string s) host = equal_fold s host
  find_host (array vs) host = find_values vs host
  find_host (object ms) host = find_members ms host

  pub find_values : Values → String → Bool
  find_values no_values host = false
  find_values (value v vs) host = find_host v host || find_values vs host

  pub find_members : Members → String → Bool
  find_members no_members host = false
  find_members (member k v ms) host =
      (k == "host" && find_host v host) || find_host v host || find_members ms host

-- `checkRoute`. The parser answers nothing for a text that is no JSON, and `contains` is the test
-- for a substring.
module _ (unmarshal : String → Option Json) (contains : String → String → Bool) where
  unfoldable pub check_route : String → String → CheckStatus
  check_route config host =
      if config == ""
      then record {
        passed = false;
        state = "unknown";
        target = host;
        details = "Caddy config unavailable";
      }
      else elim (unmarshal config) [
        | none ↦
            if contains config host
            then record { passed = true; state = "loaded"; target = host; details = "" }
            else record {
              passed = false;
              state = "error";
              target = host;
              details = "failed to parse Caddy config";
            }
        | some cfg ↦
            if find_host cfg host
            then record { passed = true; state = "loaded"; target = host; details = "" }
            else record { passed = false; state = "missing"; target = host; details = "" }
      ]

-- The strings of a configuration, wherever they stand.
mutual
  pub data OccursIn (s : String) : Json → Type 0 where
    here : OccursIn s (string s)
    in_array : {vs : Values} → OccursInValues s vs → OccursIn s (array vs)
    in_object : {ms : Members} → OccursInMembers s ms → OccursIn s (object ms)

  pub data OccursInValues (s : String) : Values → Type 0 where
    first : {v : Json} {vs : Values} → OccursIn s v → OccursInValues s (value v vs)
    later : {v : Json} {vs : Values} → OccursInValues s vs → OccursInValues s (value v vs)

  pub data OccursInMembers (s : String) : Members → Type 0 where
    under :
        {k : String} {v : Json} {ms : Members} → OccursIn s v → OccursInMembers s (member k v ms)
    after :
        {k : String} {v : Json} {ms : Members}
        → OccursInMembers s ms
        → OccursInMembers s (member k v ms)

mutual
  unfolding find_host find_values find_members

  found-occurs :
      (v : Json) (host : String)
      → find_host v host ≡ true
      → (s : String) × OccursIn s v × (equal_fold s host ≡ true)
  found-occurs null host found = cc
  found-occurs (boolean b) host found = cc
  found-occurs (number n) host found = cc
  found-occurs (string s) host found = (s, here, found)
  found-occurs (array vs) host found =
      let (s, occurs, same) = found_values-occurs vs host found in (s, in_array occurs, same)
  found-occurs (object ms) host found =
      let (s, occurs, same) = found_members-occurs ms host found in (s, in_object occurs, same)

  found_values-occurs :
      (vs : Values) (host : String)
      → find_values vs host ≡ true
      → (s : String) × OccursInValues s vs × (equal_fold s host ≡ true)
  found_values-occurs no_values host found = cc
  found_values-occurs (value v vs) host found = elim (Bool-cases (find_host v host)) [
    | inl e ↦ let (s, occurs, same) = found-occurs v host e in (s, first occurs, same)
    | inr e ↦
        let (s, occurs, same) = found_values-occurs vs host (ground arith) in
        (s, later occurs, same)
  ]

  found_members-occurs :
      (ms : Members) (host : String)
      → find_members ms host ≡ true
      → (s : String) × OccursInMembers s ms × (equal_fold s host ≡ true)
  found_members-occurs no_members host found = cc
  found_members-occurs (member k v ms) host found = elim (Bool-cases (find_host v host)) [
    | inl e ↦ let (s, occurs, same) = found-occurs v host e in (s, under occurs, same)
    | inr e ↦
        let (s, occurs, same) = found_members-occurs ms host (ground arith) in
        (s, after occurs, same)
  ]

mutual
  unfolding find_host find_values find_members

  occurs-found :
      {s : String} {v : Json} (host : String)
      → equal_fold s host ≡ true
      → OccursIn s v
      → find_host v host ≡ true
  occurs-found host same here = same
  occurs-found host same (in_array o) = occurs-found_values host same o
  occurs-found host same (in_object o) = occurs-found_members host same o

  occurs-found_values :
      {s : String} {vs : Values} (host : String)
      → equal_fold s host ≡ true
      → OccursInValues s vs
      → find_values vs host ≡ true
  occurs-found_values host same (first o) = let e = occurs-found host same o in ground arith
  occurs-found_values host same (later o) = let e = occurs-found_values host same o in ground arith

  occurs-found_members :
      {s : String} {ms : Members} (host : String)
      → equal_fold s host ≡ true
      → OccursInMembers s ms
      → find_members ms host ≡ true
  occurs-found_members host same (under o) = let e = occurs-found host same o in ground arith
  occurs-found_members host same (after o) =
      let e = occurs-found_members host same o in ground arith

-- A host is found in Caddy's configuration exactly when one of its strings, at any depth and under
-- any key, is the host, upper and lower case apart.
pub find_host_iff :
    (v : Json) (host : String)
    → (find_host v host ≡ true) ↔ ((s : String) × OccursIn s v × (equal_fold s host ≡ true))
find_host_iff v host = (found-occurs v host, λ (s, occurs, same). occurs-found host same occurs)
