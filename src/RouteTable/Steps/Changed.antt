-- ===== src/RouteTable/Steps/Changed.antt =====
-- What steps do to the announced prefixes of the two tries: what the changes of prefixes do, and
-- nothing for the sweeps between them.
pub mod One
pub mod All
use mathlib.Core.List.{append_assoc, append-nil}
use slash.Base.{
  ℕ, ◌+◌, ◌^◌, ◌<◌, ◌≡◌, ◌↔◌, ◌⊎◌, inl, inr, refl, Option, some, List, [], ◌∷◌, ◌++◌, sym, ◌∙◌, ap,
  arith, length, subst,
}
use slash.Base.Outcome.{Outcome, done, ◌>>=◌}
use slash.Timestamp.{Timestamp}
use slash.Prefix.{IpVersion, v4, v6, Prefix}
use slash.Prefix.Cidr.{Text, IpAddr, CidrParseError, parse_cidr}
use slash.Prefix.Cidr.Laws.{IsIp, IsParsed, parse_cidr-IsParsed, parsed-IsPrefix}
use slash.Node.{ThickData}
use slash.Tree.{RadixTree}
use slash.Tree.Trie.{Trie, Announced}
use slash.Tree.Monad.{State}
use slash.Tree.Sweep.Correct.{sweep_tombstones-IsSweep}
use slash.Tree.Ready.{IsReady, IsReady-swept}
use slash.Tree.Exact.{Conserves, Conserves-refl, Conserves-trans, sweep-Conserves}
use slash.Messages.{RisMessage, ThinBgpUpdate, UpdateType, thin_update}
use slash.Messages.Replay.{Changed, Changed-both}
use slash.RouteTable.{RouteTable, apply_prefix}
use slash.RouteTable.Changes.{server_change-After}
use slash.RouteTable.Steps.{Step, change, publish, sweep_tree, run_step, run_steps}

module _ {D : Type 0} (n : ℕ) where
  pub IsReady-fewer : (tree : RadixTree D) (t : Trie D) → IsReady (1 + n) tree t → IsReady n tree t
  IsReady-fewer tree t ready = record {
    represents = ready.represents;
    entries = omega (arith, ready.entries);
    counts = omega (arith, ready.counts);
  }

-- Both tries are well formed, with room for `n` steps.
pub record AreReady {Json Seconds : Type 0} (n : ℕ) (t : RouteTable Json Seconds)
    (t4 t6 : Trie ThickData) : Type 0 where
  pub ready4 : IsReady n t.tree_v4 t4
  pub ready6 : IsReady n t.tree_v6 t6
  pub sweeps4 : t.tree_v4.sweep_count + n < 2 ^ 32
  pub sweeps6 : t.tree_v6.sweep_count + n < 2 ^ 32

pub AreReady-fewer :
    {Json Seconds : Type 0} (n : ℕ) (t : RouteTable Json Seconds) (t4 t6 : Trie ThickData)
    → AreReady (1 + n) t t4 t6
    → AreReady n t t4 t6
AreReady-fewer n t t4 t6 ready = record {
  ready4 = IsReady-fewer n t.tree_v4 t4 ready.ready4;
  ready6 = IsReady-fewer n t.tree_v6 t6 ready.ready6;
  sweeps4 = omega (arith, ready.sweeps4);
  sweeps6 = omega (arith, ready.sweeps6);
}

-- What the steps publish.
abbrev pub published :
    {Json Seconds : Type 0} → List (Step Json Seconds) → List (RisMessage Json Seconds)
published [] = []
published (change ts cidr kind ∷ rest) = published rest
published (publish m ∷ rest) = m ∷ published rest
published (sweep_tree v ∷ rest) = published rest

module _ {Json Seconds : Type 0} (parse_ip : Text → Option IpAddr) (parse_len : Text → Option ℕ)
    (from_sec : Seconds → Timestamp) where
  -- The updates of a step and of steps for a family.
  unfoldable pub step_updates : IpVersion → Step Json Seconds → Outcome (List ThinBgpUpdate)
  step_updates v (change ts cidr kind) = parse_cidr parse_ip parse_len cidr >>= λ parsed.
      done (thin_update parse_ip parse_len ts v kind parsed)
  step_updates v (publish m) = done []
  step_updates v (sweep_tree w) = done []

  unfoldable pub steps_updates : IpVersion → List (Step Json Seconds) → Outcome (List ThinBgpUpdate)
  steps_updates v [] = done []
  steps_updates v (step ∷ rest) =
      step_updates v step >>= λ us. steps_updates v rest >>= λ vs. done (us ++ vs)

  -- What steps with the given result leave.
  pub record IsStepped (n : ℕ) (t : RouteTable Json Seconds) (t4 t6 : Trie ThickData)
      (us vs : List ThinBgpUpdate) (ms : List (RisMessage Json Seconds))
      (t' : RouteTable Json Seconds) : Type 0 where
    pub after4 : Trie ThickData
    pub after6 : Trie ThickData
    pub ready : AreReady n t' after4 after6
    pub announced4 : (x : Prefix) → Announced after4 x ↔ Changed us (Announced t4) x
    pub announced6 : (x : Prefix) → Announced after6 x ↔ Changed vs (Announced t6) x
    pub log : t'.updates ≡ t.updates ++ ms
    pub conserved4 : Conserves t.tree_v4 t'.tree_v4 t4 after4
    pub conserved6 : Conserves t.tree_v6 t'.tree_v6 t6 after6

  abbrev pub Stepping :
      ℕ
      → List (Step Json Seconds)
      → RouteTable Json Seconds
      → Trie ThickData
      → Trie ThickData
      → Type 0
  Stepping n steps t t4 t6 =
      (t' : RouteTable Json Seconds) × (us vs : List ThinBgpUpdate) × (run_steps parse_ip parse_len
          from_sec steps t
        ≡ done t')
      × (steps_updates v4 steps ≡ done us)
      × (steps_updates v6 steps ≡ done vs)
      × IsStepped n t t4 t6 us vs (published steps) t'
