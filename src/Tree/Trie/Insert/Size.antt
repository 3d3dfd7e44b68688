-- ===== src/Tree/Trie/Insert/Size.antt =====
-- How many nodes an insertion adds, and how many announced ones.
use slash.Base.{ℕ, ◌+◌, ◌≤◌, Bool, arith}
use slash.Prefix.{Prefix}
use slash.Timestamp.{Timestamp}
use slash.Node.{NodeData}
use slash.Tree.Trie.{Trie, size}
use slash.Tree.Trie.Insert.{
  Inserts, leaf, again, left, right, above_left, above_right, fork_left, fork_right, gain,
}

pub size-Inserts :
    {D : Type 0} (nd : NodeData D) (p : Prefix) (incoming : D) (ts : Timestamp) (Fresh : ℕ → Type 0)
    {t t' : Trie D} {adv : Bool} {target : ℕ}
    → Inserts nd p incoming ts Fresh t t' adv target
    → (size t ≤ size t') × (size t' ≤ size t + 2)
unfolding size
size-Inserts nd p incoming ts Fresh (leaf a fr) = (omega arith, omega arith)
size-Inserts nd p incoming ts Fresh (again e) = (omega arith, omega arith)
size-Inserts nd p incoming ts Fresh (left e ins) =
    let h = size-Inserts nd p incoming ts Fresh ins in (omega (arith, h.0), omega (arith, h.1))
size-Inserts nd p incoming ts Fresh (right e ins) =
    let h = size-Inserts nd p incoming ts Fresh ins in (omega (arith, h.0), omega (arith, h.1))
size-Inserts nd p incoming ts Fresh (above_left a fr e) = (omega arith, omega arith)
size-Inserts nd p incoming ts Fresh (above_right a fr e) = (omega arith, omega arith)
size-Inserts nd p incoming ts Fresh (fork_left a b c m fr fr' ne fork tr) =
    (omega arith, omega arith)
size-Inserts nd p incoming ts Fresh (fork_right a b c m fr fr' ne fork tr) =
    (omega arith, omega arith)

pub gain-le :
    {D : Type 0} (nd : NodeData D) (p : Prefix) (incoming : D) (ts : Timestamp) (Fresh : ℕ → Type 0)
    {t t' : Trie D} {adv : Bool} {target : ℕ} (ins : Inserts nd p incoming ts Fresh t t' adv target)
    → gain nd p incoming ts Fresh ins ≤ 1
unfolding gain
gain-le nd p incoming ts Fresh (leaf a fr) = omega arith
gain-le nd p incoming ts Fresh (again {f} e) = ground arith
gain-le nd p incoming ts Fresh (left e ins) = gain-le nd p incoming ts Fresh ins
gain-le nd p incoming ts Fresh (right e ins) = gain-le nd p incoming ts Fresh ins
gain-le nd p incoming ts Fresh (above_left a fr e) = omega arith
gain-le nd p incoming ts Fresh (above_right a fr e) = omega arith
gain-le nd p incoming ts Fresh (fork_left a b c m fr fr' ne fork tr) = omega arith
gain-le nd p incoming ts Fresh (fork_right a b c m fr fr' ne fork tr) = omega arith
