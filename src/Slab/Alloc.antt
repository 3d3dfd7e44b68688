-- ===== src/Slab/Alloc.antt =====
-- Allocation: which indices are live, that a fresh index is not, and what stays as it was.
use slash.Base.{
  ℕ, suc, ◌+◌, ◌-◌, ◌%◌, ◌^◌, ◌≤◌, ◌<◌, ◌≡◌, ◌≢◌, ◌⊎◌, inl, inr, refl, false, none, some, List, [],
  ◌∷◌, ◌++◌, arith, length, get_elem?, contains, Distinct, All, length-append,
  get_elem?-append_left, get_elem?-append_length, get_elem?-some, lt→ltb, le→not_ltb, ap,
}
use native.Mathlib.Decide.{dec_lt}
use slash.Slab.{VecSlab, alloc, with_capacity}

-- Freed indices are allocated ones, each once, and the entries fit the capacity.
pub record IsSlab {T : Type 0} (s : VecSlab T) : Type 0 where
  pub reserved : 0 < length s.entries
  pub freed_in_range : All (λ i. (0 < i) × (i < length s.entries)) s.free_list
  pub freed_once : Distinct s.free_list
  pub fits : length s.entries ≤ s.max_capacity + 1
  pub capacity : s.max_capacity < 2 ^ 32

-- An index that was handed out and not freed since.
pub record IsLive {T : Type 0} (s : VecSlab T) (i : ℕ) : Type 0 where
  pub nonzero : 0 < i
  pub in_range : i < length s.entries
  pub not_freed : contains s.free_list i ≡ false

-- How many allocations can still succeed.
abbrev pub room : {T : Type 0} → VecSlab T → ℕ
room s = length s.free_list + (s.max_capacity + 1 - length s.entries)

module _ {T : Type 0} (default : T) where
  pub with_capacity-IsSlab : (cap : ℕ) → cap < 2 ^ 32 → IsSlab (with_capacity default cap)
  unfolding with_capacity
  with_capacity-IsSlab cap h = record {
    reserved = omega arith;
    freed_in_range = tt;
    freed_once = tt;
    fits = omega arith;
    capacity = h;
  }

  -- What a successful allocation does: the index was not live and is now, nothing else changes
  -- its state or its value.
  pub record IsAlloc (s s' : VecSlab T) (idx : ℕ) : Type 0 where
    pub valid : IsSlab s'
    pub fresh : ¬ (IsLive s idx)
    pub live : IsLive s' idx
    pub others : (j : ℕ) → j ≢ idx → IsLive s j → IsLive s' j
    pub no_others : (j : ℕ) → j ≢ idx → IsLive s' j → IsLive s j
    pub values : (j : ℕ) → IsLive s j → get_elem? s'.entries j ≡ get_elem? s.entries j
    pub holds : (v : T) × (get_elem? s'.entries idx ≡ some v)
    pub room_left : room s ≡ suc (room s')

  module _ (s : VecSlab T) (valid : IsSlab s) where
    -- The two ways to allocate, and the failure: nothing is freed and the slab is full.
    alloc_reuse :
        (idx : ℕ) (rest : List ℕ)
        → s.free_list ≡ idx ∷ rest
        → (alloc default s ≡ (some idx, record s { free_list = rest }))
          × IsAlloc s (record s { free_list = rest }) idx
    unfolding alloc
    alloc_reuse idx rest e =
        let in_range = rw e at valid.freed_in_range in
        let once = rw e at valid.freed_once in
        (
          rw e refl,
          record {
            valid = record {
              reserved = valid.reserved;
              freed_in_range = in_range.1;
              freed_once = once.1;
              fits = valid.fits;
              capacity = valid.capacity;
            };
            fresh = λ h. let out = rw e at h.not_freed in ground arith;
            live = record { nonzero = in_range.0.0; in_range = in_range.0.1; not_freed = once.0 };
            others = λ j ne h.
                let out = rw e at h.not_freed in
                record { nonzero = h.nonzero; in_range = h.in_range; not_freed = ground arith };
            no_others = λ j ne h. record {
              nonzero = h.nonzero;
              in_range = h.in_range;
              not_freed = rw e (ground (arith, h.not_freed));
            };
            values = λ j h. refl;
            holds = get_elem?-some s.entries idx in_range.0.1;
            room_left = omega (arith, ap (λ (l : List ℕ). length l) e);
          },
        )

    alloc_full : s.free_list ≡ [] → s.max_capacity < length s.entries → alloc default s ≡ (none, s)
    unfolding alloc
    alloc_full e full = rw (e, lt→ltb s.max_capacity (length s.entries) full) refl

    alloc_grow :
        s.free_list ≡ []
        → length s.entries ≤ s.max_capacity
        → let s' : VecSlab T = record s { entries = s.entries ++ default ∷ [] } in
          (alloc default s ≡ (some (length s.entries), s')) × IsAlloc s s' (length s.entries)
    unfolding alloc
    alloc_grow e room =
        let n = length s.entries in
        let wraps : n % 2 ^ 32 ≡ n = omega (arith, valid.capacity) in
        let longer = length-append s.entries (default ∷ []) in
        (
          rw (e, le→not_ltb s.max_capacity n room, wraps) (ground (arith, valid.reserved)),
          record {
            valid = record {
              reserved = omega arith;
              freed_in_range = rw e tt;
              freed_once = rw e tt;
              fits = omega arith;
              capacity = valid.capacity;
            };
            fresh = λ h. omega (arith, h.in_range);
            live = record {
              nonzero = valid.reserved;
              in_range = omega arith;
              not_freed = rw e refl;
            };
            others = λ j ne h. record {
              nonzero = h.nonzero;
              in_range = omega (arith, h.in_range);
              not_freed = h.not_freed;
            };
            no_others = λ j ne h. record {
              nonzero = h.nonzero;
              in_range = omega (arith, h.in_range);
              not_freed = h.not_freed;
            };
            values = λ j h. get_elem?-append_left s.entries (default ∷ []) j h.in_range;
            holds = (default, get_elem?-append_length s.entries default n refl);
            room_left = omega (arith, ap (λ (l : List ℕ). length l) e, valid.fits);
          },
        )

    -- On a valid slab, alloc either hands out an index that was not live, keeps the slab valid and
    -- the other live indices and their values as they were; or it returns none and changes nothing,
    -- which happens where nothing is freed and the slab is full.
    pub alloc-IsAlloc :
        ((idx : ℕ) × (s' : VecSlab T) × (alloc default s ≡ (some idx, s')) × IsAlloc s s' idx)
        ⊎ ((alloc default s ≡ (none, s))
            × (s.free_list ≡ [])
            × (length s.entries ≡ s.max_capacity + 1))
    alloc-IsAlloc = go s.free_list refl
      where
        go :
            (l : List ℕ)
            → s.free_list ≡ l
            → ((idx : ℕ) × (s' : VecSlab T) × (alloc default s ≡ (some idx, s')) × IsAlloc s s' idx)
              ⊎ ((alloc default s ≡ (none, s))
                  × (s.free_list ≡ [])
                  × (length s.entries ≡ s.max_capacity + 1))
        go (idx ∷ rest) e =
            let r = alloc_reuse idx rest e in inl (idx, record s { free_list = rest }, r.0, r.1)
        go [] e = elim (dec_lt s.max_capacity (length s.entries)) [
          | yes full ↦ inr (alloc_full e full, e, omega (arith, valid.fits))
          | no room ↦
              let r = alloc_grow e (omega arith) in
              inl (length s.entries, record s { entries = s.entries ++ default ∷ [] }, r.0, r.1)
        ]
