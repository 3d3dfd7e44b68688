-- ===== src/Prefix/Laws.antt =====
-- What prefixes mean for the bits of an address: canonical form, equality, covering.
use slash.Base.{
  ◌≢◌, ℕ, ◌≤◌, ◌<◌, min, ◌≡◌, ◌↔◌, ◌⊎◌, inl, inr, refl, true, arith, sym, ap, leb, ◌∙◌, lt→ltb,
  le→not_ltb, ==→eq, eq→==,
}
use native.Mathlib.Decide.{dec_lt}
use slash.Base.Outcome.{Outcome, done, panic}
use slash.Address
use slash.Address.{Address, address_eq}
use slash.Address.Agree.{
  address_bit, IsAddress, Agree, IsCommonLen, common_prefix_len-IsCommonLen, bit_at_lem, masked-bit,
  masked-IsAddress, address_ext,
}
use slash.Prefix.{
  Prefix, prefix, prefix_eq, max_prefix_len, from_address, new, new_unchecked, common_prefix_len,
  covers, bit_at,
}

-- A prefix as `Prefix::new` builds it: the bits from `len` on are 0.
pub record IsPrefix (p : Prefix) : Type 0 where
  pub short : p.len ≤ 128
  pub words : IsAddress p.bits
  pub canonical : (i : ℕ) → p.len ≤ i → i < 128 → address_bit p.bits i ≡ 0

-- What `Prefix::new` returns: the first `len` bits of the address, canonical.
pub record IsTruncation (a : Address) (n : ℕ) (p : Prefix) : Type 0 where
  pub valid : IsPrefix p
  pub length : p.len ≡ n
  pub agree : Agree n p.bits a

pub masked-IsTruncation :
    (a : Address) (n : ℕ) → IsAddress a → n ≤ 128 → IsTruncation a n (prefix (Address.masked a n) n)
masked-IsTruncation a n ha hn = record {
  valid = record {
    short = hn;
    words = masked-IsAddress a n ha;
    canonical = λ i le hi. masked-bit a n i ha hi ∙ (rw (le→not_ltb i n le) refl);
  };
  length = refl;
  agree = λ i hi. masked-bit a n i ha (omega arith) ∙ (rw (lt→ltb i n hi) refl);
}

-- For an address of four words of 32 bits, Prefix::new returns the canonical prefix with the first
-- n bits of the address where n is at most 128, and panics above.
pub new-IsTruncation :
    (a : Address) (n : ℕ)
    → IsAddress a
    → ((n ≤ 128) × (p : Prefix) × (new a n ≡ done p) × IsTruncation a n p)
      ⊎ ((128 < n) × (new a n ≡ panic))
unfolding new
new-IsTruncation a n ha = elim (dec_lt 128 n) [
  | yes big ↦ inr (big, ground arith)
  | no small ↦ inl (
    omega arith,
    prefix (Address.masked a n) n,
    ground arith,
    masked-IsTruncation a n ha (omega arith),
  )
]

pub from_address-eq-new : (a : Address) (n : ℕ) → from_address a n ≡ new a n
unfolding from_address new
from_address-eq-new a n = refl

address_eq_iff : (a b : Address) → (address_eq a b ≡ true) ↔ (a ≡ b)
address_eq_iff a b = ground arith

pub prefix_eq_iff : (p q : Prefix) → (prefix_eq p q ≡ true) ↔ (p ≡ q)
prefix_eq_iff p q = ground arith

-- Two canonical prefixes of one length that agree on their bits are equal.
pub prefix_ext :
    {p q : Prefix} → IsPrefix p → IsPrefix q → p.len ≡ q.len → Agree p.len p.bits q.bits → p ≡ q
prefix_ext {p} {q} hp hq e same = λ i. prefix (bits i) (e i)
  where
    bits : p.bits ≡ q.bits
    bits = address_ext p.bits q.bits hp.words hq.words λ i hi. elim (dec_lt i p.len) [
      | yes h ↦ same i h
      | no h ↦ hp.canonical i (omega arith) hi ∙ sym (hq.canonical i (omega arith) hi)
    ]

-- A canonical prefix that another one begins with is shorter, or equal.
pub shorter_of-ne :
    (q p : Prefix)
    → IsPrefix q
    → IsPrefix p
    → q.len ≤ p.len
    → Agree q.len q.bits p.bits
    → q ≢ p
    → q.len < p.len
shorter_of-ne q p hq hp le agree differs =
    let distinct : q.len ≢ p.len = λ e. differs (prefix_ext hq hp e (λ j h. agree j h)) in
    omega (arith, distinct)

-- For two canonical prefixes, common_prefix_len is at most both lengths, all bits below it agree,
-- and the next bits differ where both prefixes have one.
pub common_prefix_len-lem :
    (p q : Prefix)
    → IsPrefix p
    → IsPrefix q
    → IsCommonLen p.bits q.bits (min p.len q.len) (common_prefix_len p q)
unfolding common_prefix_len
common_prefix_len-lem p q hp hq =
    common_prefix_len-IsCommonLen p.bits q.bits p.len q.len hp.words hq.words
      (omega (arith, hp.short))

-- For a canonical prefix and an address of four words of 32 bits, covers is true just where the
-- address begins with the bits of the prefix.
pub covers_iff :
    (p : Prefix) (a : Address)
    → IsPrefix p
    → IsAddress a
    → (covers p a ≡ true) ↔ Agree p.len p.bits a
unfolding covers
covers_iff p a hp ha =
    let c = Address.common_prefix_len p.bits p.len a max_prefix_len in
    let cl : IsCommonLen p.bits a (min p.len 128) c =
      common_prefix_len-IsCommonLen p.bits a p.len 128 hp.words ha (omega arith) in
    (
      λ h. let e : c ≡ p.len = ==→eq _ _ h in λ i hi. cl.agree i (omega arith),
      λ same. elim (dec_lt c p.len) [
        | yes less ↦ absurd (cl.differ (omega (arith, hp.short)) (same c less))
        | no more ↦ eq→== c p.len (omega (arith, cl.bounded))
      ],
    )

-- Prefix::new on the bits and the length of a canonical prefix returns that prefix.
pub new-IsPrefix : (p : Prefix) → IsPrefix p → new p.bits p.len ≡ done p
unfolding new
new-IsPrefix p hp = ground (arith, hp.short, same)
  where
    m : IsTruncation p.bits p.len (prefix (Address.masked p.bits p.len) p.len)
    m = masked-IsTruncation p.bits p.len hp.words hp.short

    same : prefix (Address.masked p.bits p.len) p.len ≡ p
    same = prefix_ext m.valid hp refl m.agree

-- Prefix::new_unchecked returns the canonical prefix with these bits and this length where there is
-- one.
pub new_unchecked-IsPrefix : (p : Prefix) → IsPrefix p → new_unchecked p.bits p.len ≡ done p
unfolding new_unchecked new
new_unchecked-IsPrefix p hp =
    let small : leb p.len 128 ≡ true = let short = hp.short in ground arith in
    let whole : ◌≡◌ {A = Outcome Prefix} (done (prefix (Address.masked p.bits p.len) p.len))
        (done p) =
      rw small at (new-IsPrefix p hp) in
    let same : prefix (Address.masked p.bits p.len) p.len ≡ p = cc in
    let bits : Address.masked p.bits p.len ≡ p.bits = ap (λ (q : Prefix). q.bits) same in
    rw (small, (address_eq_iff (Address.masked p.bits p.len) p.bits).1 bits) refl

-- A bit of a prefix inside its 128.
pub bit_at-address_bit :
    (p : Prefix) (pos : ℕ) → pos < 128 → bit_at p pos ≡ done (address_bit p.bits pos)
unfolding bit_at
bit_at-address_bit p pos h = bit_at_lem p.bits pos h
