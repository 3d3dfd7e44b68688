-- ===== src/Slab/Free.antt =====
-- Freeing, and writes through `get_mut`.
use slash.Base.{
  ℕ, suc, ◌≡◌, ◌≢◌, refl, true, some, ◌∷◌, arith, get_elem?, set, contains, sym, ◌∙◌, length-set,
  get_elem?-set_self, get_elem?-set_ne, lt-length_of_get,
}
use slash.Base.Outcome.{done, panic}
use slash.Slab.{VecSlab, alloc, free, write}
use slash.Slab.Alloc.{IsSlab, IsLive, room}

module _ {T : Type 0} where
  -- What a successful free does: the index is no longer live, and nothing else changes.
  pub record IsFree (s s' : VecSlab T) (idx : ℕ) : Type 0 where
    pub valid : IsSlab s'
    pub dead : ¬ (IsLive s' idx)
    pub others : (j : ℕ) → j ≢ idx → IsLive s j → IsLive s' j
    pub no_others : (j : ℕ) → IsLive s' j → IsLive s j
    pub values : (j : ℕ) → get_elem? s'.entries j ≡ get_elem? s.entries j
    pub room_more : room s' ≡ suc (room s)

  -- Freeing a live index succeeds, makes that index and no other dead, changes no entry, and the
  -- next allocation returns that index and the slab as it was.
  pub free-IsFree :
      (default : T) (s : VecSlab T) (idx : ℕ)
      → IsSlab s
      → IsLive s idx
      → (s' : VecSlab T) × (free s idx ≡ done s')
        × IsFree s s' idx
        × (alloc default s' ≡ (some idx, s))
  unfolding free alloc
  free-IsFree default s idx valid live = (
    record s { free_list = idx ∷ s.free_list },
    rw live.not_freed refl,
    record {
      valid = record {
        reserved = valid.reserved;
        freed_in_range = ((live.nonzero, live.in_range), valid.freed_in_range);
        freed_once = (live.not_freed, valid.freed_once);
        fits = valid.fits;
        capacity = valid.capacity;
      };
      dead = λ h. let out = h.not_freed in ground arith;
      others = λ j ne h. record {
        nonzero = h.nonzero;
        in_range = h.in_range;
        not_freed = ground (arith, h.not_freed);
      };
      no_others = λ j h.
          let out = h.not_freed in
          record { nonzero = h.nonzero; in_range = h.in_range; not_freed = ground arith };
      values = λ j. refl;
      room_more = omega arith;
    },
    refl,
  )

  -- Freeing an index that is in the free list panics.
  pub free-panic : (s : VecSlab T) (idx : ℕ) → contains s.free_list idx ≡ true → free s idx ≡ panic
  unfolding free
  free-panic s idx h = rw h refl

  -- A write to a live index is read back, and no other index changes.
  pub record IsWrite (s s' : VecSlab T) (idx : ℕ) (v : T) : Type 0 where
    pub valid : IsSlab s'
    pub value : get_elem? s'.entries idx ≡ some v
    pub values : (j : ℕ) → j ≢ idx → get_elem? s'.entries j ≡ get_elem? s.entries j
    pub live : (j : ℕ) → IsLive s j → IsLive s' j
    pub no_more : (j : ℕ) → IsLive s' j → IsLive s j
    pub room_same : room s' ≡ room s

  -- A write to an entry of a valid slab succeeds, is read back, keeps the slab valid, and changes
  -- no other entry and the liveness of no index.
  pub write-IsWrite :
      (s : VecSlab T) (idx : ℕ) (old v : T)
      → IsSlab s
      → get_elem? s.entries idx ≡ some old
      → (s' : VecSlab T) × (write s idx v ≡ done s') × IsWrite s s' idx v
  unfolding write
  write-IsWrite s idx old v valid e =
      let same = length-set s.entries idx v in
      let inside = lt-length_of_get s.entries idx old e in
      (
        record s { entries = set s.entries idx v },
        rw e refl,
        record {
          valid = record {
            reserved = omega (arith, valid.reserved);
            freed_in_range = rw same valid.freed_in_range;
            freed_once = valid.freed_once;
            fits = omega (arith, valid.fits);
            capacity = valid.capacity;
          };
          value = get_elem?-set_self s.entries idx v inside;
          values = λ j ne. get_elem?-set_ne s.entries idx j v (λ p. ne (sym p));
          live = λ j h. record {
            nonzero = h.nonzero;
            in_range = omega (arith, h.in_range);
            not_freed = h.not_freed;
          };
          no_more = λ j h. record {
            nonzero = h.nonzero;
            in_range = omega (arith, h.in_range);
            not_freed = h.not_freed;
          };
          room_same = omega arith;
        },
      )

  -- A write of what is there already.
  pub IsWrite-refl :
      (s : VecSlab T) (idx : ℕ) (v : T)
      → IsSlab s
      → get_elem? s.entries idx ≡ some v
      → IsWrite s s idx v
  IsWrite-refl s idx v valid e = record {
    valid = valid;
    value = e;
    values = λ j ne. refl;
    live = λ j h. h;
    no_more = λ j h. h;
    room_same = refl;
  }

  -- Two writes to one index.
  pub IsWrite-trans :
      (s s' s'' : VecSlab T) (idx : ℕ) (v w : T)
      → IsWrite s s' idx v
      → IsWrite s' s'' idx w
      → IsWrite s s'' idx w
  IsWrite-trans s s' s'' idx v w a b = record {
    valid = b.valid;
    value = b.value;
    values = λ j ne. b.values j ne ∙ a.values j ne;
    live = λ j h. b.live j (a.live j h);
    no_more = λ j h. a.no_more j (b.no_more j h);
    room_same = b.room_same ∙ a.room_same;
  }
