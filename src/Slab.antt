-- ===== src/Slab.antt =====
-- crates/core/src/slab.rs: `VecSlab`, entries addressed by a `NodeIdx` with a stack of freed
-- indices, and its iterator. The index 0 is reserved. The head of `free_list` is the end of the
-- source's `Vec`. The model is of a build with debug assertions, so a double free panics.
-- `size_capacity` and `size` (bytes) stand with the gauges, in RouteTable/Metrics.
pub mod Alloc
pub mod Free
use slash.Base.{
  ℕ, zero, suc, ◌+◌, ◌-◌, ◌%◌, ◌^◌, Bool, true, false, not, ◌&&◌, Option, none, some, List, [], ◌∷◌,
  ◌++◌, map, ltb, ◌==◌, if◌then◌else◌, length, get_elem?, set, contains,
}
use slash.Base.Outcome.{Outcome, done, out_of_fuel, ◌>>=◌, ◌>>◌, expect, assert}

pub record VecSlab (T : Type 0) : Type 0 where
  pub entries : List T
  pub free_list : List ℕ
  pub max_capacity : ℕ

-- `NonZeroU32::new(n as u32)`.
abbrev pub nonzero_u32 : ℕ → Option ℕ
nonzero_u32 n = if n % 2 ^ 32 == 0 then none else some (n % 2 ^ 32)

module _ {T : Type 0} where
  -- `default` is `T::default()`.
  unfoldable pub with_capacity : (default : T) → ℕ → VecSlab T
  with_capacity default cap = record { entries = default ∷ []; free_list = []; max_capacity = cap }

  unfoldable pub new : (default : T) → VecSlab T
  unfolding with_capacity
  new default = with_capacity default (2 ^ 32 - 1)

  unfoldable pub get : VecSlab T → ℕ → Outcome T
  get s idx = expect (get_elem? s.entries idx)

  -- A write through `get_mut`.
  unfoldable pub write : VecSlab T → ℕ → T → Outcome (VecSlab T)
  write s idx v = do
    _ ← expect (get_elem? s.entries idx)
    done (record s { entries = set s.entries idx v })

  unfoldable pub len : VecSlab T → ℕ
  len s = (length s.entries - 1 - length s.free_list) % 2 ^ 32

  unfoldable pub is_empty : VecSlab T → Bool
  unfolding len
  is_empty s = len s == 0

  unfoldable pub alloc : (default : T) → VecSlab T → Option ℕ × VecSlab T
  alloc default s = elim s.free_list [
    | idx ∷ rest ↦ (some idx, record s { free_list = rest })
    | [] ↦
        let next_position = length s.entries in
        if ltb s.max_capacity next_position
        then (none, s)
        else (nonzero_u32 next_position, record s { entries = s.entries ++ default ∷ [] })
  ]

  unfoldable pub free : VecSlab T → ℕ → Outcome (VecSlab T)
  free s idx = do
    assert (not (contains s.free_list idx))
    done (record s { free_list = idx ∷ s.free_list })

  -- The inner loop of `VecSlabIterator::next`: over the freed indices from `cur_idx` on.
  unfoldable pub skip_freed : ℕ → VecSlab T → ℕ → Outcome ℕ
  skip_freed zero s cur_idx = out_of_fuel
  skip_freed (suc fuel) s cur_idx =
      let next = skip_freed fuel s (cur_idx + 1) in
      if contains s.free_list cur_idx && ltb cur_idx (length s.entries) then next else done cur_idx

  -- `VecSlabIterator::next`: the new index and the item. A round of the loop stays below the
  -- length, so one round more than the length is enough.
  unfoldable pub next : VecSlab T → ℕ → Outcome (ℕ × Option T)
  unfolding skip_freed
  next s cur_idx = do
    cur ← skip_freed (length s.entries + 1) s (cur_idx + 1)
    done (cur, get_elem? s.entries cur)

module _ {T U : Type 0} where
  unfoldable pub with_entries_mapped_from : (T → U) → VecSlab T → VecSlab U
  with_entries_mapped_from mapper other = record {
    entries = map mapper other.entries;
    free_list = other.free_list;
    max_capacity = other.max_capacity;
  }
