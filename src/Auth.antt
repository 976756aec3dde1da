-- ===== src/Auth.antt =====
-- auth/src/lib.rs: the validator of API keys. A key is its bytes; the set of the valid keys is a list
-- without repetitions.
pub mod Config
use blipmq.Prelude.{
  ◌≡◌, ◌↔◌, ◌⊎◌, refl, sym, ap, ◌∙◌, arith, Bool, true, false, ◌||◌, Bool-cases, inl, inr, List, [],
  ◌∷◌, if◌then◌else◌,
}
use blipmq.Wire.Buf.{Bytes}
use blipmq.Core.Subject.{bytes_eq}
use blipmq.Core.Subject.Split.{bytes_eq_iff}

pub record ApiKey : Type 0 where
  pub value : Bytes

-- `ApiKey::new`
unfoldable pub new : Bytes → ApiKey
new value = record { value = value }

unfoldable pub as_str : ApiKey → Bytes
as_str key = key.value

-- `HashSet::contains`
unfoldable pub contains : List ApiKey → ApiKey → Bool
contains [] key = false
contains (k ∷ keys) key = bytes_eq k.value key.value || contains keys key

-- `HashSet::insert`
unfoldable pub insert_key : ApiKey → List ApiKey → List ApiKey
unfolding contains
insert_key key keys = if contains keys key then keys else key ∷ keys

-- `keys.into_iter().map(ApiKey::new).collect()`
unfoldable pub collect : List Bytes → List ApiKey
unfolding insert_key new
collect [] = []
collect (k ∷ ks) = insert_key (new k) (collect ks)

pub record StaticApiKeyValidator : Type 0 where
  pub valid_keys : List ApiKey

unfoldable pub from_keys : List Bytes → StaticApiKeyValidator
unfolding collect
from_keys keys = record { valid_keys = collect keys }

unfoldable pub validate : StaticApiKeyValidator → ApiKey → Bool
unfolding contains
validate v key = contains v.valid_keys key
