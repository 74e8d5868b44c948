-- ===== src/Tests/Profile.antt =====
-- The theorems on the edits of the profile, with a YAML library that knows two texts.
use home_stack.Prelude.{true, ◌≡◌, refl, some, ◌==◌, insert, if◌then◌else◌, ok}
use home_stack.Registry.{Service, Registry}
use home_stack.Validate.{validate}
use home_stack.Edits.{
  File, missing, holds, Disk, System, load_registry, add_service, remove_service,
}
use home_stack.Edits.Atomic.{
  IsAtomic, IsReplaced, add_service-IsReplaced, remove_service-IsAtomic, add_service-succeeds,
}
use home_stack.Tests.{house, blank}

abbrev wiki : Service
wiki = record blank { subdomain = "wiki"; upstream = "127.0.0.1:8090" }

abbrev bigger_house : Registry
bigger_house = record { services = insert "wiki" wiki house.services }

abbrev system : System
system = record {
  marshal = λ r. some "house with wiki";
  unmarshal = λ text. if text == "house" then some house else some bigger_house;
  parent_domain = "home.example.com";
  can_write = true;
  partial = missing;
  can_rename = true;
  can_remove = true;
}

abbrev disk : Disk
disk = record { registry = holds "house"; temp = missing }

add_service-IsReplaced_example : IsReplaced system disk (add_service system "wiki" wiki disk)
add_service-IsReplaced_example = add_service-IsReplaced system "wiki" wiki disk

remove_service-IsAtomic_example : IsAtomic system disk (remove_service system "notes" disk)
remove_service-IsAtomic_example = remove_service-IsAtomic system "notes" disk

house-loads : load_registry system disk.registry ≡ ok house
unfolding load_registry home_stack.Edits.check_loaded validate home_stack.Validate.check_services
    home_stack.Validate.check_service home_stack.Validate.validate_display_token
    home_stack.Validate.check_broker_enabled
house-loads = refl

bigger_house-valid : validate bigger_house "home.example.com" ≡ ok tt
unfolding validate home_stack.Validate.check_services insert home_stack.Validate.check_service
    home_stack.Validate.validate_display_token home_stack.Validate.check_broker_enabled
bigger_house-valid = refl

add_service-succeeds_example :
    (add_service system "wiki" wiki disk
      ≡ (ok tt, record { registry = holds "house with wiki"; temp = missing }))
    × (load_registry system (holds "house with wiki") ≡ ok bigger_house)
add_service-succeeds_example =
    add_service-succeeds system "wiki" wiki disk house "house with wiki" house-loads
      bigger_house-valid refl refl refl refl refl
