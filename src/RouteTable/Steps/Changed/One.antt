-- ===== src/RouteTable/Steps/Changed/One.antt =====
-- One step on a table whose tries are well formed, with room for it.
use mathlib.Core.List.{append-nil}
use slash.Base.{ℕ, ◌+◌, ◌≡◌, ◌⊎◌, inl, inr, refl, Option, some, List, [], ◌∷◌, ◌++◌, sym, arith}
use slash.Base.Outcome.{done}
use slash.Timestamp.{Timestamp}
use slash.Prefix.{IpVersion, v4, v6, Prefix}
use slash.Prefix.Cidr.{Text, IpAddr, CidrParseError, parse_cidr}
use slash.Prefix.Cidr.Laws.{IsIp, IsParsed, parse_cidr-IsParsed, parsed-IsPrefix}
use slash.Node.{ThickData}
use slash.Tree.Trie.{Trie}
use slash.Tree.Monad.{State}
use slash.Tree.Sweep.Correct.{sweep_tombstones-IsSweep}
use slash.Tree.Ready.{IsReady-swept}
use slash.Tree.Exact.{Conserves-refl, sweep-Conserves}
use slash.Messages.{ThinBgpUpdate, UpdateType}
use slash.RouteTable.{RouteTable, apply_prefix}
use slash.RouteTable.Changes.{server_change-After}
use slash.RouteTable.Steps.{Step, change, publish, sweep_tree, run_step}
use slash.RouteTable.Steps.Changed.{
  IsReady-fewer, AreReady, AreReady-fewer, published, step_updates, IsStepped,
}

module _ {Json Seconds : Type 0} (parse_ip : Text → Option IpAddr) (parse_len : Text → Option ℕ)
    (from_sec : Seconds → Timestamp)
    (in_range : (text : Text) (ip : IpAddr) → parse_ip text ≡ some ip → IsIp ip) where
  abbrev pub OneStep :
      ℕ → Step Json Seconds → RouteTable Json Seconds → Trie ThickData → Trie ThickData → Type 0
  OneStep n step t t4 t6 =
      (t' : RouteTable Json Seconds) × (us vs : List ThinBgpUpdate) × (run_step parse_ip parse_len
          from_sec step t
        ≡ done t')
      × (step_updates parse_ip parse_len from_sec v4 step ≡ done us)
      × (step_updates parse_ip parse_len from_sec v6 step ≡ done vs)
      × IsStepped parse_ip parse_len from_sec n t t4 t6 us vs (published (step ∷ [])) t'

  change-Stepped :
      (n : ℕ) (ts : Timestamp) (cidr : Text) (kind : UpdateType) (t : RouteTable Json Seconds)
      (t4 t6 : Trie ThickData) (r : CidrParseError ⊎ IpVersion × Prefix)
      → parse_cidr parse_ip parse_len cidr ≡ done r
      → IsParsed parse_ip parse_len cidr r
      → AreReady (1 + n) t t4 t6
      → OneStep n (change ts cidr kind) t t4 t6
  unfolding run_step step_updates apply_prefix
  change-Stepped n ts cidr kind t t4 t6 (inl error) parsed is ready = (
    t,
    [],
    [],
    rw parsed refl,
    rw parsed refl,
    rw parsed refl,
    record {
      after4 = t4;
      after6 = t6;
      ready = AreReady-fewer n t t4 t6 ready;
      announced4 = λ x. (λ h. h, λ h. h);
      announced6 = λ x. (λ h. h, λ h. h);
      log = sym (append-nil t.updates);
      conserved4 = Conserves-refl t.tree_v4 t4;
      conserved6 = Conserves-refl t.tree_v6 t6;
    },
  )
  change-Stepped n ts cidr kind t t4 t6 (inr (v4, p)) parsed is ready =
      let hp = parsed-IsPrefix parse_ip parse_len cidr v4 p is in
      let (tree', t4', runs, ready', sweeps, after, conserved) =
        server_change-After n kind p ts t.tree_v4 t4 ready.ready4 hp in
      (
        record t { tree_v4 = tree' },
        record { prefix = p; timestamp = ts; update_type = kind } ∷ [],
        [],
        rw (parsed, runs) refl,
        rw parsed refl,
        rw parsed refl,
        record {
          after4 = t4';
          after6 = t6;
          ready = record {
            ready4 = ready';
            ready6 = IsReady-fewer n t.tree_v6 t6 ready.ready6;
            sweeps4 = omega (arith, ready.sweeps4);
            sweeps6 = omega (arith, ready.sweeps6);
          };
          announced4 = after;
          announced6 = λ x. (λ h. h, λ h. h);
          log = sym (append-nil t.updates);
          conserved4 = conserved;
          conserved6 = Conserves-refl t.tree_v6 t6;
        },
      )
  change-Stepped n ts cidr kind t t4 t6 (inr (v6, p)) parsed is ready =
      let hp = parsed-IsPrefix parse_ip parse_len cidr v6 p is in
      let (tree', t6', runs, ready', sweeps, after, conserved) =
        server_change-After n kind p ts t.tree_v6 t6 ready.ready6 hp in
      (
        record t { tree_v6 = tree' },
        [],
        record { prefix = p; timestamp = ts; update_type = kind } ∷ [],
        rw (parsed, runs) refl,
        rw parsed refl,
        rw parsed refl,
        record {
          after4 = t4;
          after6 = t6';
          ready = record {
            ready4 = IsReady-fewer n t.tree_v4 t4 ready.ready4;
            ready6 = ready';
            sweeps4 = omega (arith, ready.sweeps4);
            sweeps6 = omega (arith, ready.sweeps6);
          };
          announced4 = λ x. (λ h. h, λ h. h);
          announced6 = after;
          log = sym (append-nil t.updates);
          conserved4 = Conserves-refl t.tree_v4 t4;
          conserved6 = conserved;
        },
      )

  pub step-Stepped :
      (n : ℕ) (step : Step Json Seconds) (t : RouteTable Json Seconds) (t4 t6 : Trie ThickData)
      → AreReady (1 + n) t t4 t6
      → OneStep n step t t4 t6
  unfolding run_step step_updates
  step-Stepped n (change ts cidr kind) t t4 t6 ready =
      let (r, parsed, is) = parse_cidr-IsParsed parse_ip parse_len cidr in_range in
      change-Stepped n ts cidr kind t t4 t6 r parsed is ready
  step-Stepped n (publish m) t t4 t6 ready =
      let less = AreReady-fewer n t t4 t6 ready in
      (
        record t { updates = t.updates ++ m ∷ [] },
        [],
        [],
        refl,
        refl,
        refl,
        record {
          after4 = t4;
          after6 = t6;
          ready = record {
            ready4 = less.ready4;
            ready6 = less.ready6;
            sweeps4 = less.sweeps4;
            sweeps6 = less.sweeps6;
          };
          announced4 = λ x. (λ h. h, λ h. h);
          announced6 = λ x. (λ h. h, λ h. h);
          log = refl;
          conserved4 = Conserves-refl t.tree_v4 t4;
          conserved6 = Conserves-refl t.tree_v6 t6;
        },
      )
  step-Stepped n (sweep_tree v4) t t4 t6 ready =
      let less = AreReady-fewer n t t4 t6 ready in
      let start : State ThickData = record { tree = t.tree_v4; dirty = [] } in
      let (s', t4', runs, rep', sw) =
        sweep_tombstones-IsSweep start t4 less.ready4.represents (omega (arith, ready.sweeps4)) in
      (
        record t { tree_v4 = s'.tree },
        [],
        [],
        rw runs refl,
        refl,
        refl,
        record {
          after4 = t4';
          after6 = t6;
          ready = record {
            ready4 = IsReady-swept n start s' t4 t4' less.ready4 rep' sw;
            ready6 = less.ready6;
            sweeps4 = omega (arith, ready.sweeps4, sw.sweeps);
            sweeps6 = less.sweeps6;
          };
          announced4 = sw.announced;
          announced6 = λ x. (λ h. h, λ h. h);
          log = sym (append-nil t.updates);
          conserved4 = sweep-Conserves start s' t4 t4' less.ready4.represents runs sw;
          conserved6 = Conserves-refl t.tree_v6 t6;
        },
      )
  step-Stepped n (sweep_tree v6) t t4 t6 ready =
      let less = AreReady-fewer n t t4 t6 ready in
      let start : State ThickData = record { tree = t.tree_v6; dirty = [] } in
      let (s', t6', runs, rep', sw) =
        sweep_tombstones-IsSweep start t6 less.ready6.represents (omega (arith, ready.sweeps6)) in
      (
        record t { tree_v6 = s'.tree },
        [],
        [],
        rw runs refl,
        refl,
        refl,
        record {
          after4 = t4;
          after6 = t6';
          ready = record {
            ready4 = less.ready4;
            ready6 = IsReady-swept n start s' t6 t6' less.ready6 rep' sw;
            sweeps4 = less.sweeps4;
            sweeps6 = omega (arith, ready.sweeps6, sw.sweeps);
          };
          announced4 = λ x. (λ h. h, λ h. h);
          announced6 = sw.announced;
          log = sym (append-nil t.updates);
          conserved4 = Conserves-refl t.tree_v4 t4;
          conserved6 = sweep-Conserves start s' t6 t6' less.ready6.represents runs sw;
        },
      )
