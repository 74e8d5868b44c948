-- ===== src/Validate/Errors.antt =====
-- engine.go, the errors of `Validate`: a constructor for each message, with the values it prints.
-- The service's name, which most messages print, is added by the loop.
use home_stack.Prelude.{List, String}

pub data TokenError : Type 0 where
  required control_characters whitespace : String → TokenError

pub data ServiceError : Type 0 where
  invalid_name missing_type system_disabled admin_disabled : ServiceError
  unknown_lifecycle : String → ServiceError
  proxy_identity_shape : ServiceError
  unknown_proxy_identity unroutable_auth no_broker broker_without_upstream : String → ServiceError
  unknown_auth : String → ServiceError
  invalid_display_name invalid_kind : TokenError → ServiceError
  no_address two_addresses : ServiceError
  invalid_subdomain : String → ServiceError
  missing_host : ServiceError
  invalid_host : String → ServiceError
  host_overlap : String → String → ServiceError
  invalid_upstream invalid_root : TokenError → ServiceError
  unsupported_type : String → ServiceError
  invalid_binary invalid_working_dir invalid_arg : TokenError → ServiceError
  invalid_env_key reserved_env_key : String → ServiceError
  invalid_env_value : String → TokenError → ServiceError
  unknown_install_method : String → ServiceError
  invalid_install invalid_release : TokenError → ServiceError

pub data ValidationError : Type 0 where
  in_service : String → ServiceError → ValidationError
  broker_disabled : List String → ValidationError
