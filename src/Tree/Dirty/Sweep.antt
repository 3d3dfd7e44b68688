-- ===== src/Tree/Dirty/Sweep.antt =====
-- `sweep_tombstones` reports every entry that it changes.
use slash.Base.{ℕ, zero, suc, ◌^◌, ◌<◌, ◌≡◌, inl, inr, Option, none, some, Option-cases}
use slash.Base.Outcome.{done}
use slash.Node.{is_announced}
use slash.Tree.{walk_fuel}
use slash.Tree.Monad.{State}
use slash.Tree.Dirty.{Logged, Nothing, Tracks, Logged-refl}
use slash.Tree.Dirty.Rules.{
  Tracks-bind, Tracks-pure, Tracks-get_node, Tracks-update_node, Tracks-set_root,
  Tracks-count_sweep, Tracks-free_node, Tracks-if,
}
use slash.Tree.Sweep.{set_parent_slot, collapse, sweep_recursive, sweep_tombstones}
use slash.Tree.Dirty.Steps.{Tracks-report, Tracks-each}

module _ {D : Type 0} {s0 : State D} {Y : ℕ → Type 0} where
  Tracks-set_parent_slot :
      (slot : Option (ℕ × ℕ)) (v : Option ℕ) → Tracks s0 Y (set_parent_slot slot v) (λ u. Y)
  unfolding set_parent_slot
  Tracks-set_parent_slot none v = Tracks-set_root v
  Tracks-set_parent_slot (some (parent, bit)) v =
      Tracks-bind _ _ (Tracks-update_node parent _) λ u. Tracks-report parent

  Tracks-collapse :
      (i : ℕ) (slot : Option (ℕ × ℕ)) (c0 c1 : Option ℕ)
      → Tracks s0 Y (collapse i slot c0 c1) (λ u. Y)
  unfolding collapse
  Tracks-collapse i slot (some c) (some d) = Tracks-pure tt
  Tracks-collapse i slot none none =
      Tracks-bind _ _ (Tracks-set_parent_slot slot none) λ u. Tracks-free_node i
  Tracks-collapse i slot (some c) none =
      Tracks-bind _ _ (Tracks-set_parent_slot slot (some c)) λ u. Tracks-free_node i
  Tracks-collapse i slot none (some c) =
      Tracks-bind _ _ (Tracks-set_parent_slot slot (some c)) λ u. Tracks-free_node i

  Tracks-sweep_recursive :
      (fuel i : ℕ) (slot : Option (ℕ × ℕ)) → Tracks s0 Y (sweep_recursive fuel i slot) (λ u. Y)
  unfolding sweep_recursive
  Tracks-sweep_recursive zero i slot = λ s a s' e l. cc
  Tracks-sweep_recursive (suc fuel) i slot = Tracks-bind _ _ (Tracks-get_node i) λ before.
      Tracks-bind _ _ (Tracks-each before.child0 _ λ c. Tracks-sweep_recursive fuel c (some (i, 0)))
        λ u.
          Tracks-bind _ _
            (Tracks-each before.child1 _ λ c. Tracks-sweep_recursive fuel c (some (i, 1)))
            λ u. Tracks-bind _ _ (Tracks-get_node i) λ n.
              Tracks-if (is_announced n) _ _ (Tracks-pure tt)
                (Tracks-collapse i slot n.child0 n.child1)

  pub Tracks-sweep_tombstones : Tracks s0 Y sweep_tombstones (λ u. Y)
  unfolding sweep_tombstones
  Tracks-sweep_tombstones = Tracks-bind _ _ Tracks-count_sweep λ u. λ s a s' e l.
      elim (Option-cases s.tree.root) [
        | inl h ↦ Tracks-pure tt s a s' (rw h at e) l
        | inr (root, h) ↦ Tracks-sweep_recursive walk_fuel root none s a s' (rw h at e) l
      ]

-- On a slab with a capacity of 32 bits, a sweep that returns has reported every index whose entry
-- differs from before; it keeps the reports made before, reports no index out of the range of the
-- slab, and leaves the slab at least as long and its capacity as it was.
pub sweep_tombstones-Logged :
    {D : Type 0} (s s' : State D)
    → sweep_tombstones s ≡ done (tt, s')
    → s.tree.slab.max_capacity < 2 ^ 32
    → Logged Nothing s s'
sweep_tombstones-Logged s s' e small = Tracks-sweep_tombstones s tt s' e (Logged-refl s small)
