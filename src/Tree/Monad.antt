-- ===== src/Tree/Monad.antt =====
-- The mutations' access to the trie: a step reads and changes the trie and reports dirty indices
-- to the caller's callback, which the model keeps as a list, the oldest report first. With debug
-- assertions `announced_count` panics where a `u32` would wrap.
pub mod Laws
use slash.Base.{
  ℕ, zero, suc, ◌+◌, ◌^◌, Bool, true, false, Option, none, some, List, [], ◌∷◌, ◌++◌, ltb, ◌==◌,
  if◌then◌else◌,
}
use slash.Base.Outcome.{Outcome, done, panic, out_of_fuel, expect}
use slash.Node.{Node, NodeData}
use slash.Slab
use slash.Slab.{VecSlab}
use slash.Tree.{RadixTree}

pub record State (D : Type 0) : Type 0 where
  pub tree : RadixTree D
  pub dirty : List ℕ

abbrev pub M : Type 0 → Type 0 → Type 0
M D A = State D → Outcome (A × State D)

abbrev pub pure : {D A : Type 0} → A → M D A
pure a s = done (a, s)

module _ {D A B : Type 0} where
  abbrev pub and_then : Outcome (A × State D) → (A → M D B) → Outcome (B × State D)
  and_then (done (a, s)) f = f a s
  and_then panic f = panic
  and_then out_of_fuel f = out_of_fuel

  infixl 5 ◌>>=◌ ◌>>◌
  abbrev pub ◌>>=◌ : M D A → (A → M D B) → M D B
  m >>= f = λ s. and_then (m s) f

  abbrev pub ◌>>◌ : M D A → M D B → M D B
  m >> k = m >>= λ _. k

module _ {D : Type 0} where
  -- A result that depends on the trie alone.
  abbrev pub lift : {A : Type 0} → Outcome A → M D A
  lift (done a) s = done (a, s)
  lift panic s = panic
  lift out_of_fuel s = out_of_fuel

  abbrev pub with_slab : VecSlab (Node D) → State D → State D
  with_slab slab s = record s { tree = record (s.tree) { slab = slab } }

  -- `self.slab.get(idx)`.
  unfoldable pub get_node : ℕ → M D (Node D)
  get_node idx s = lift (Slab.get s.tree.slab idx) s

  -- `*self.slab.get_mut(idx) = f(old)`.
  unfoldable pub update_node : ℕ → (Node D → Node D) → M D (Unit {0})
  update_node idx f = get_node idx >>= λ n. λ s.
      and_then (lift (Slab.write s.tree.slab idx (f n)) s) (λ slab s'. done (tt, with_slab slab s'))

  -- `self.slab.alloc().expect("slab full")`.
  unfoldable pub alloc_node : Node D → M D ℕ
  alloc_node default s =
      let (o, slab) = Slab.alloc default s.tree.slab in lift (expect o) (with_slab slab s)

  unfoldable pub free_node : ℕ → M D (Unit {0})
  free_node idx s =
      and_then (lift (Slab.free s.tree.slab idx) s) (λ slab s'. done (tt, with_slab slab s'))

  unfoldable pub mark_dirty : ℕ → M D (Unit {0})
  mark_dirty idx s = done (tt, record s { dirty = s.dirty ++ idx ∷ [] })

  unfoldable pub set_root : Option ℕ → M D (Unit {0})
  set_root r s = done (tt, record s { tree = record (s.tree) { root = r } })

  -- `self.announced_count += 1`.
  unfoldable pub count_up : M D (Unit {0})
  count_up s =
      if ltb (s.tree.announced_count + 1) (2 ^ 32)
      then done
          (tt, record s { tree = record (s.tree) { announced_count = s.tree.announced_count + 1 } })
      else panic

  -- `self.announced_count -= 1`.
  unfoldable pub count_down_from : ℕ → M D (Unit {0})
  count_down_from zero s = panic
  count_down_from (suc n) s = done (tt, record s { tree = record (s.tree) { announced_count = n } })

  unfoldable pub count_down : M D (Unit {0})
  count_down s = count_down_from s.tree.announced_count s

  -- `self.sweep_count += 1`.
  unfoldable pub count_sweep : M D (Unit {0})
  count_sweep s =
      if ltb (s.tree.sweep_count + 1) (2 ^ 32)
      then done (tt, record s { tree = record (s.tree) { sweep_count = s.tree.sweep_count + 1 } })
      else panic
