-- ===== src/Auth/Config.antt =====
-- auth/src/lib.rs, `AuthConfig`: the set of valid keys behind the validator's, as a configuration.
use blipmq.Prelude.{Bool, List}
use blipmq.Wire.Buf.{Bytes}
use blipmq.Auth.{ApiKey, contains, collect}

pub record AuthConfig : Type 0 where
  pub valid_keys : List ApiKey

pub from_keys : List Bytes → AuthConfig
from_keys keys = record { valid_keys = collect keys }

pub is_valid : AuthConfig → ApiKey → Bool
is_valid config key = contains config.valid_keys key
