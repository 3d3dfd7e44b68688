-- ===== src/RouteTable/Steps/Changed/All.antt =====
-- Steps on a table whose tries are well formed, with room for them.
use mathlib.Core.List.{append_assoc, append-nil}
use slash.Base.{
  ℕ, ◌+◌, ◌≡◌, refl, Option, some, List, [], ◌∷◌, ◌++◌, sym, ◌∙◌, ap, arith, length, subst,
}
use slash.Timestamp.{Timestamp}
use slash.Prefix.Cidr.{Text, IpAddr}
use slash.Prefix.Cidr.Laws.{IsIp}
use slash.Node.{ThickData}
use slash.Tree.Trie.{Trie, Announced}
use slash.Tree.Exact.{Conserves-refl, Conserves-trans}
use slash.Messages.Replay.{Changed-both}
use slash.RouteTable.{RouteTable}
use slash.RouteTable.Steps.{Step, change, publish, sweep_tree, run_steps}
use slash.RouteTable.Steps.Changed.{AreReady, published, steps_updates, Stepping}
use slash.RouteTable.Steps.Changed.One.{step-Stepped}

module _ {Json Seconds : Type 0} (parse_ip : Text → Option IpAddr) (parse_len : Text → Option ℕ)
    (from_sec : Seconds → Timestamp)
    (in_range : (text : Text) (ip : IpAddr) → parse_ip text ≡ some ip → IsIp ip) where
  published-step :
      (step : Step Json Seconds) (rest : List (Step Json Seconds))
      → published (step ∷ rest) ≡ published (step ∷ []) ++ published rest
  published-step (change ts cidr kind) rest = refl
  published-step (publish m) rest = refl
  published-step (sweep_tree v) rest = refl

  -- Steps with room for them return, and their updates tell what is announced after.
  pub steps-Stepped :
      (n : ℕ) (steps : List (Step Json Seconds)) (t : RouteTable Json Seconds)
      (t4 t6 : Trie ThickData)
      → AreReady (length steps + n) t t4 t6
      → Stepping parse_ip parse_len from_sec n steps t t4 t6
  unfolding run_steps steps_updates
  steps-Stepped n [] t t4 t6 ready =
      let none_left : length {A = Step Json Seconds} [] + n ≡ n = omega arith in
      (
        t,
        [],
        [],
        refl,
        refl,
        refl,
        record {
          after4 = t4;
          after6 = t6;
          ready = subst (λ k. AreReady k t t4 t6) none_left ready;
          announced4 = λ x. (λ h. h, λ h. h);
          announced6 = λ x. (λ h. h, λ h. h);
          log = sym (append-nil t.updates);
          conserved4 = Conserves-refl t.tree_v4 t4;
          conserved6 = Conserves-refl t.tree_v6 t6;
        },
      )
  steps-Stepped n (step ∷ rest) t t4 t6 ready =
      let one_more : length (step ∷ rest) + n ≡ 1 + (length rest + n) = omega arith in
      let (t1, us, vs, runs, e4, e6, first) =
        step-Stepped parse_ip parse_len from_sec in_range (length rest + n) step t t4 t6
          (subst (λ k. AreReady k t t4 t6) one_more ready) in
      let (t', us', vs', runs', e4', e6', then_) =
        steps-Stepped n rest t1 first.after4 first.after6 first.ready in
      (
        t',
        us ++ us',
        vs ++ vs',
        rw runs runs',
        rw (e4, e4') refl,
        rw (e6, e6') refl,
        record {
          after4 = then_.after4;
          after6 = then_.after6;
          ready = then_.ready;
          announced4 =
              Changed-both us us' (Announced t4) (Announced first.after4) (Announced then_.after4)
                first.announced4 then_.announced4;
          announced6 =
              Changed-both vs vs' (Announced t6) (Announced first.after6) (Announced then_.after6)
                first.announced6 then_.announced6;
          log =
              then_.log
              ∙ ap (λ log. log ++ published rest) first.log
              ∙ append_assoc t.updates (published (step ∷ [])) (published rest)
              ∙ ap (λ ms. t.updates ++ ms) (sym (published-step step rest));
          conserved4 =
              Conserves-trans t.tree_v4 t1.tree_v4 t'.tree_v4 t4 first.after4 then_.after4
                first.conserved4 then_.conserved4;
          conserved6 =
              Conserves-trans t.tree_v6 t1.tree_v6 t'.tree_v6 t6 first.after6 then_.after6
                first.conserved6 then_.conserved6;
        },
      )
