-- ===== src/Prefix/Cidr/Laws.antt =====
-- `parse_cidr` returns an error or a canonical prefix of its family.
use slash.Base.{
  ℕ, ◌%◌, ◌/◌, ◌^◌, ◌<◌, ◌≤◌, ◌≡◌, ◌⊎◌, inl, inr, refl, Option, none, some, arith, ltb, Bool-cases,
}
use slash.Base.Outcome.{done}
use slash.Address.{Address, address}
use slash.Address.Agree.{IsAddress}
use slash.Prefix.{IpVersion, v4, v6, Prefix}
use slash.Prefix.Laws.{IsPrefix, IsTruncation, new-IsTruncation}
use slash.Prefix.Cidr.{
  Text, IpAddr, ip_v4, ip_v6, CidrParseError, missing_separator, invalid_address, invalid_length,
  length_too_long, split_once, slash_char, cidr_of, parse_cidr,
}

-- `to_bits` is a `u32` or a `u128`.
abbrev pub IsIp : IpAddr → Type 0
IsIp (ip_v4 bits) = bits < 2 ^ 32
IsIp (ip_v6 bits) = bits < 2 ^ 128

abbrev pub bound : IpVersion → ℕ
bound v4 = 32
bound v6 = 128

-- The family, and the address as its four words.
abbrev pub family : IpAddr → IpVersion
family (ip_v4 bits) = v4
family (ip_v6 bits) = v6

abbrev pub ip_words : IpAddr → Address
ip_words (ip_v4 bits) = address bits 0 0 0
ip_words (ip_v6 bits) =
    address (bits / 2 ^ 96 % 2 ^ 32) (bits / 2 ^ 64 % 2 ^ 32) (bits / 2 ^ 32 % 2 ^ 32)
      (bits % 2 ^ 32)

ip_words-IsAddress : (ip : IpAddr) → IsIp ip → IsAddress (ip_words ip)
ip_words-IsAddress (ip_v4 bits) h = (h, omega arith, omega arith, omega arith)
ip_words-IsAddress (ip_v6 bits) h = (omega arith, omega arith, omega arith, omega arith)

-- What the parsed address and length give: an error just where the length exceeds the family's
-- bound, and else the first bits of the address.
abbrev pub IsCidrOf : IpAddr → ℕ → CidrParseError ⊎ IpVersion × Prefix → Type 0
IsCidrOf ip n (inl e) = (bound (family ip) < n) × (e ≡ length_too_long n (bound (family ip)))
IsCidrOf ip n (inr (v, p)) =
    (v ≡ family ip) × (n ≤ bound (family ip)) × IsTruncation (ip_words ip) n p

cidr_of-IsCidrOf :
    (ip : IpAddr) (n : ℕ)
    → IsIp ip
    → (res : CidrParseError ⊎ IpVersion × Prefix) × (cidr_of ip n ≡ done res) × IsCidrOf ip n res
unfolding cidr_of
cidr_of-IsCidrOf (ip_v4 bits) n h = elim (Bool-cases (ltb 32 n)) [
  | inl big ↦ (inl (length_too_long n 32), rw big refl, (ground arith, refl))
  | inr small ↦ elim (new-IsTruncation (address bits 0 0 0) n (ip_words-IsAddress (ip_v4 bits) h)) [
    | inl (fine, p, made, cut) ↦ (inr (v4, p), rw (small, made) refl, (refl, ground arith, cut))
    | inr (big, panics) ↦ absurd (ground arith)
  ]
]
cidr_of-IsCidrOf (ip_v6 bits) n h = elim (Bool-cases (ltb 128 n)) [
  | inl big ↦ (inl (length_too_long n 128), rw big refl, (ground arith, refl))
  | inr small ↦
      elim (new-IsTruncation (ip_words (ip_v6 bits)) n (ip_words-IsAddress (ip_v6 bits) h)) [
        | inl (fine, p, made, cut) ↦ (inr (v6, p), rw (small, made) refl, (refl, ground arith, cut))
        | inr (big, panics) ↦ absurd (ground arith)
      ]
]

-- The outcome of a parse by its steps.
pub data IsParsed (parse_ip : Text → Option IpAddr) (parse_len : Text → Option ℕ) (cidr : Text)
    : CidrParseError ⊎ IpVersion × Prefix → Type 0 where
  unseparated :
      split_once slash_char cidr ≡ none → IsParsed parse_ip parse_len cidr (inl missing_separator)
  bad_address :
      {addr len : Text}
      → split_once slash_char cidr ≡ some (addr, len)
      → parse_ip addr ≡ none
      → IsParsed parse_ip parse_len cidr (inl invalid_address)
  bad_length :
      {addr len : Text} {ip : IpAddr}
      → split_once slash_char cidr ≡ some (addr, len)
      → parse_ip addr ≡ some ip
      → parse_len len ≡ none
      → IsParsed parse_ip parse_len cidr (inl invalid_length)
  whole :
      {addr len : Text} {ip : IpAddr} {n : ℕ} {res : CidrParseError ⊎ IpVersion × Prefix}
      → split_once slash_char cidr ≡ some (addr, len)
      → parse_ip addr ≡ some ip
      → parse_len len ≡ some n
      → IsCidrOf ip n res
      → IsParsed parse_ip parse_len cidr res

Option-cases : {A : Type 0} (o : Option A) → (o ≡ none) ⊎ ((x : A) × (o ≡ some x))
Option-cases none = inl refl
Option-cases (some x) = inr (x, refl)

-- For every text, and a parser of addresses whose results have 32 or 128 bits, parse_cidr returns
-- without a panic: an error where the separator is missing, the address or the length does not
-- parse, or the length exceeds the bound of the family, and otherwise the family and the canonical
-- prefix with the first bits of the address.
pub parse_cidr-IsParsed :
    (parse_ip : Text → Option IpAddr) (parse_len : Text → Option ℕ) (cidr : Text)
    → ((text : Text) (ip : IpAddr) → parse_ip text ≡ some ip → IsIp ip)
    → (res : CidrParseError ⊎ IpVersion × Prefix) × (parse_cidr parse_ip parse_len cidr ≡ done res)
      × IsParsed parse_ip parse_len cidr res
unfolding parse_cidr
parse_cidr-IsParsed parse_ip parse_len cidr in_range =
    elim (Option-cases (split_once slash_char cidr)) [
      | inl e ↦ (inl missing_separator, rw (parse_cidr, e) refl, unseparated e)
      | inr ((addr, len), e) ↦ elim (Option-cases (parse_ip addr)) [
        | inl e' ↦ (inl invalid_address, rw (parse_cidr, e, e') refl, bad_address e e')
        | inr (ip, e') ↦ elim (Option-cases (parse_len len)) [
          | inl e'' ↦ (inl invalid_length, rw (parse_cidr, e, e', e'') refl, bad_length e e' e'')
          | inr (n, e'') ↦
              let (res, runs, is) = cidr_of-IsCidrOf ip n (in_range addr ip e') in
              (res, rw (parse_cidr, e, e', e'') runs, whole e e' e'' is)
        ]
      ]
    ]

-- A parsed prefix is canonical.
pub parsed-IsPrefix :
    (parse_ip : Text → Option IpAddr) (parse_len : Text → Option ℕ) (cidr : Text) (v : IpVersion)
    (p : Prefix)
    → IsParsed parse_ip parse_len cidr (inr (v, p))
    → IsPrefix p
parsed-IsPrefix parse_ip parse_len cidr v p (whole e e' e'' (same, small, cut)) = cut.valid
