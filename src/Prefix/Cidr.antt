-- ===== src/Prefix/Cidr.antt =====
-- `Address::parse` and `Prefix::parse_cidr` of crates/core/src/prefix.rs. A text is the list of its
-- characters' code points. The standard library's parsers of an IP address and of a `u32` are
-- parameters, and their own error values are left out.
pub mod Laws
use slash.Base.{
  ℕ, ◌%◌, ◌/◌, ◌^◌, ◌<◌, ◌⊎◌, inl, inr, Option, none, some, List, [], ◌∷◌, ltb, ◌==◌, if◌then◌else◌,
}
use slash.Base.Outcome.{Outcome, done, ◌>>=◌}
use slash.Address.{Address, address, from_u32, from_u128}
use slash.Prefix
use slash.Prefix.{IpVersion, v4, v6, Prefix}

abbrev pub Text : Type 0
Text = List ℕ

-- `core::net::IpAddr`, an address as its `to_bits`.
pub data IpAddr : Type 0 where
  ip_v4 : (bits : ℕ) → IpAddr
  ip_v6 : (bits : ℕ) → IpAddr

pub data CidrParseError : Type 0 where
  missing_separator : CidrParseError
  invalid_address : CidrParseError
  invalid_length : CidrParseError
  length_too_long : (len max : ℕ) → CidrParseError

abbrev keep_char : ℕ → Option (Text × Text) → Option (Text × Text)
keep_char c none = none
keep_char c (some (before, after)) = some (c ∷ before, after)

-- `split_once`: the text before and after the first separator.
unfoldable pub split_once : ℕ → Text → Option (Text × Text)
split_once sep [] = none
split_once sep (c ∷ text) =
    let rest = split_once sep text in if c == sep then some ([], text) else keep_char c rest

-- The character `/`.
abbrev pub slash_char : ℕ
slash_char = 47

module _ (parse_ip : Text → Option IpAddr) where
  -- `Address::parse`; none is its one error.
  unfoldable pub parse : Text → Option (Address × IpVersion)
  parse input = elim (parse_ip input) [
    | none ↦ none
    | some (ip_v4 bits) ↦ some (from_u32 bits, v4)
    | some (ip_v6 bits) ↦ some (from_u128 bits, v6)
  ]

-- The end of `parse_cidr`, with the address and the length parsed.
unfoldable pub cidr_of : IpAddr → ℕ → Outcome (CidrParseError ⊎ IpVersion × Prefix)
cidr_of (ip_v4 bits) len =
    if ltb 32 len
    then done (inl (length_too_long len 32))
    else (Prefix.new (address bits 0 0 0) len >>= λ p. done (inr (v4, p)))
cidr_of (ip_v6 bits) len =
    if ltb 128 len
    then done (inl (length_too_long len 128))
    else (Prefix.new
          (address (bits / 2 ^ 96 % 2 ^ 32) (bits / 2 ^ 64 % 2 ^ 32) (bits / 2 ^ 32 % 2 ^ 32)
            (bits % 2 ^ 32))
          len
        >>= λ p. done (inr (v6, p)))

module _ (parse_ip : Text → Option IpAddr) (parse_len : Text → Option ℕ) where
  unfoldable pub parse_cidr : Text → Outcome (CidrParseError ⊎ IpVersion × Prefix)
  parse_cidr cidr = elim (split_once slash_char cidr) [
    | none ↦ done (inl missing_separator)
    | some (addr, len) ↦ elim (parse_ip addr) [
      | none ↦ done (inl invalid_address)
      | some ip ↦ elim (parse_len len) [ none ↦ done (inl invalid_length) | some n ↦ cidr_of ip n ]
    ]
  ]
