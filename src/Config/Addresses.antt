-- ===== src/Config/Addresses.antt =====
-- Which address form `ConnectionSettings::from_config` ends up with.
use typedb_mcp.Prelude.{◌≡◌, ◌≢◌, ◌⊎◌, String, true, false, some, List, [], arith}
use typedb_mcp.Config.{
  TypeDbConfig, ConnectionSettings, legacy, addresses, translation, settings, panicked, is_blank,
  is_some_nonempty, present, pick_address, from_config,
}

-- `from_config` never reaches the panic of its `unwrap`.
pub from_config-ne-panicked : (c : TypeDbConfig) → from_config c ≢ panicked
unfolding from_config present pick_address
from_config-ne-panicked c h = ground arith

-- The settings that are accepted name the one form of address that the operator filled in, if the
-- operator did not write an empty `addresses` list.
pub from_config_address :
    (c : TypeDbConfig) (s : ConnectionSettings)
    → from_config c ≡ settings s
    → c.addresses ≢ some []
    → ((is_blank c.address ≡ false)
        × (s.address ≡ legacy c.address)
        × (is_some_nonempty c.addresses ≡ false)
        × (is_some_nonempty c.address_translation ≡ false))
      ⊎ ((v : List String) × (c.addresses ≡ some v)
          × (s.address ≡ addresses v)
          × (is_blank c.address ≡ true)
          × (is_some_nonempty c.address_translation ≡ false))
      ⊎ ((m : List (String × String)) × (c.address_translation ≡ some m)
          × (s.address ≡ translation m)
          × (is_blank c.address ≡ true)
          × (is_some_nonempty c.addresses ≡ false))
unfolding from_config present pick_address
from_config_address c s h n = ground arith

-- With an empty `addresses` list and no legacy address, settings that are accepted had a
-- translation map, and hold the empty list in its place.
pub from_config_drops_translation :
    (c : TypeDbConfig) (s : ConnectionSettings)
    → is_blank c.address ≡ true
    → c.addresses ≡ some []
    → from_config c ≡ settings s
    → (is_some_nonempty c.address_translation ≡ true) × (s.address ≡ addresses [])
unfolding from_config present pick_address
from_config_drops_translation c s b e h = ground arith
