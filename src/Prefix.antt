-- ===== src/Prefix.antt =====
-- `Prefix` and `IpVersion` of crates/core/src/prefix.rs: an address with a length in bits.
-- `Prefix::bit_at` is `bit_at` of the prefix's bits.
pub mod Laws
pub mod Cidr
use slash.Base.{
  ℕ, zero, suc, ◌+◌, ◌-◌, ◌*◌, ◌/◌, ◌%◌, ◌^◌, min, bit_and, bit_xor, Bool, true, false, ◌&&◌,
  Option, none, some, List, [], ◌∷◌, ltb, leb, ◌==◌, if◌then◌else◌,
}
use slash.Base.Outcome.{Outcome, done, ◌>>=◌, ◌>>◌, expect, assert}
use slash.Address
use slash.Address.{Address, address_eq}

abbrev pub max_prefix_len : ℕ
max_prefix_len = 128

pub data IpVersion : Type 0 where
  v4 v6 : IpVersion

abbrev pub version_eq : IpVersion → IpVersion → Bool
version_eq v4 v4 = true
version_eq v6 v6 = true
version_eq v4 v6 = false
version_eq v6 v4 = false

pub record Prefix : Type 0 where
  pub bits : Address
  pub len : ℕ

abbrev pub prefix : Address → ℕ → Prefix
prefix a n = record { bits = a; len = n }

-- The derived `PartialEq`.
abbrev pub prefix_eq : Prefix → Prefix → Bool
prefix_eq p q = address_eq p.bits q.bits && p.len == q.len

-- `Prefix::new` and `Prefix::from_address`: a length above 128 panics.
unfoldable pub from_address : Address → ℕ → Outcome Prefix
from_address addr len = do
  assert (leb len max_prefix_len)
  done (prefix (Address.masked addr len) len)

unfoldable pub new : Address → ℕ → Outcome Prefix
new bits len = do assert (leb len max_prefix_len); done (prefix (Address.masked bits len) len)

-- In a build with debug assertions: bits past the length panic too.
unfoldable pub new_unchecked : Address → ℕ → Outcome Prefix
new_unchecked bits len = do
  assert (leb len max_prefix_len)
  assert (address_eq (Address.masked bits len) bits)
  done (prefix bits len)

unfoldable pub bit_at : Prefix → ℕ → Outcome ℕ
bit_at p pos = Address.bit_at p.bits pos

unfoldable pub common_prefix_len : Prefix → Prefix → ℕ
common_prefix_len p other = Address.common_prefix_len p.bits p.len other.bits other.len

unfoldable pub covers : Prefix → Address → Bool
covers p addr = Address.common_prefix_len p.bits p.len addr max_prefix_len == p.len
