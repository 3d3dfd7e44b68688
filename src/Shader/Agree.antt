-- ===== src/Shader/Agree.antt =====
-- Two readers of a slab of which the second reads what the first reads: the walk of `lookup` and
-- the shader come to the same on both.
use slash.Base.{ℕ, zero, suc, ◌≡◌, Bool, true, false, Option, none, some, ltb, ◌==◌, if◌then◌else◌}
use slash.Base.Outcome.{Outcome, done, ◌>>=◌, bind-done}
use slash.Address.{Address}
use slash.Prefix
use slash.Prefix.{Prefix, max_prefix_len}
use slash.Hilbert.{axis, point_to_ip}
use slash.Node.{Node, ThinData, is_announced, child}
use slash.Tree.{walk_fuel, lookup_loop, lookup_from}
use slash.Wire.{RenderUniforms}
use slash.Shader.{Pixel, shade, fs_main, screen_axis}

-- What `get` reads, `get'` reads.
abbrev pub ReadsAs : {D : Type 0} → (ℕ → Outcome (Node D)) → (ℕ → Outcome (Node D)) → Type 0
ReadsAs {D} get get' = (i : ℕ) (n : Node D) → get i ≡ done n → get' i ≡ done n

-- A step that returns the same on both readers.
abbrev Same : {A : Type 0} → Outcome A → Outcome A → Type 0
Same {A} o o' = (a : A) → o ≡ done a → o' ≡ done a

Same-bind :
    {A B : Type 0} (o o' : Outcome A) (f f' : A → Outcome B)
    → Same o o'
    → ((a : A) → Same (f a) (f' a))
    → Same (o >>= f) (o' >>= f')
Same-bind o o' f f' same rest b e =
    let (a, e1, e2) = bind-done o f b e in rw (same a e1) (rest a b e2)

Same-if :
    {A : Type 0} (c : Bool) (x x' y y' : Outcome A)
    → Same x x'
    → Same y y'
    → Same (if c then x else y) (if c then x' else y')
Same-if true x x' y y' hx hy = hx
Same-if false x x' y y' hx hy = hy

Same-child :
    {A : Type 0} (c : Option ℕ) (f f' : ℕ → Outcome A) (x : Outcome A)
    → ((i : ℕ) → Same (f i) (f' i))
    → Same (elim c [ some i ↦ f i | none ↦ x ]) (elim c [ some i ↦ f' i | none ↦ x ])
Same-child none f f' x h = λ a e. e
Same-child (some i) f f' x h = h i

module _ {D : Type 0} (get get' : ℕ → Outcome (Node D)) (reads : ReadsAs get get') where
  lookup_loop-Same :
      (q : Prefix) (fuel i : ℕ) (ans : Option ℕ)
      → Same (lookup_loop get q fuel i ans) (lookup_loop get' q fuel i ans)
  unfolding lookup_loop
  lookup_loop-Same q zero i ans = λ a e. e
  lookup_loop-Same q (suc fuel) i ans = Same-bind (get i) (get' i) _ _ (reads i) λ cur.
      Same-if (ltb (Prefix.common_prefix_len cur.prefix q) cur.prefix.len) _ _ _ _ (λ a e. e)
        (Same-if (cur.prefix.len == max_prefix_len) _ _ _ _ (λ a e. e)
          (Same-bind (Prefix.bit_at q cur.prefix.len) _ _ _ (λ a e. e)
            λ bit.
              Same-child (child cur bit) _ _ _
                (λ c. lookup_loop-Same q fuel c (if is_announced cur then some i else ans))))

  lookup_from-Same :
      (root : Option ℕ) (addr : Address)
      → Same (lookup_from get root addr) (lookup_from get' root addr)
  unfolding lookup_from
  lookup_from-Same none addr = λ a e. e
  lookup_from-Same (some r) addr =
      Same-bind (Prefix.from_address addr max_prefix_len) _ _ _ (λ a e. e)
        λ q. lookup_loop-Same q walk_fuel r none

-- What the shader shows of a pixel on a slab, it shows on every slab that reads as that one does.
pub fs_main-ReadsAs :
    (get get' : ℕ → Outcome (Node ThinData)) (uniforms : RenderUniforms) (x y : ℕ) (pixel : Pixel)
    → ReadsAs get get'
    → fs_main get uniforms x y ≡ done pixel
    → fs_main get' uniforms x y ≡ done pixel
unfolding fs_main shade
fs_main-ReadsAs get get' uniforms x y pixel reads e =
    Same-bind (point_to_ip (record { x = axis (screen_axis x) 0; y = axis (screen_axis y) 0 })) _ _
      _ (λ a e. e)
      (λ addr.
        Same-bind _ _ (shade get uniforms) (shade get' uniforms)
          (lookup_from-Same get get' reads uniforms.root addr) (λ answer. shade-Same answer))
      pixel e
  where
    shade-Same : (answer : Option ℕ) → Same (shade get uniforms answer) (shade get' uniforms answer)
    shade-Same none = λ a e. e
    shade-Same (some i) = Same-bind (get i) (get' i) _ _ (reads i) λ n. λ a e. e
