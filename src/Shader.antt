-- ===== src/Shader.antt =====
-- crates/shader/src/lib.rs: what the fragment shader computes at a pixel, up to its floating-point
-- ends. A pixel comes in as the two numbers `(uv * scale) as u32`, and the colour goes out as black
-- or as the age in milliseconds that `calc_color` scales to a shade. What the shader reads of the
-- slab is a function `get`, as `GpuSlab::get` indexes the storage buffer.
pub mod Agree
use slash.Base.{ℕ, ◌+◌, ◌-◌, ◌*◌, ◌^◌, Option, none, some, leb, bit_and, if◌then◌else◌}
use slash.Base.Outcome.{Outcome, done, ◌>>=◌, ◌>>◌}
use slash.Word.{◌<<<◌}
use slash.Timestamp.{Timestamp}
use slash.Hilbert.{HilbertPoint, axis, point_to_ip}
use slash.Node.{Node, ThinData}
use slash.Tree.{lookup_from}
use slash.Wire.{RenderUniforms}

pub data Pixel : Type 0 where
  black : Pixel
  faded : (age_ms : ℕ) → Pixel

-- The integer part of `calc_color`, on the low words of the times.
unfoldable pub age_ms : Timestamp → Timestamp → ℕ
age_ms now node_ts = if leb node_ts.lo now.lo then now.lo - node_ts.lo else 0

-- `(… as u32 & 0x00FF_FFFF) << 8`.
abbrev pub screen_axis : ℕ → ℕ
screen_axis scaled = bit_and scaled (2 ^ 24 - 1) <<< 8

module _ (get : ℕ → Outcome (Node ThinData)) (uniforms : RenderUniforms) where
  -- What the shader makes of the answer of `lookup`.
  unfoldable pub shade : Option ℕ → Outcome Pixel
  shade none = done black
  shade (some node_idx) =
      get node_idx >>= λ node. done (faded (age_ms uniforms.now node.payload.timestamp))

  unfoldable pub fs_main : ℕ → ℕ → Outcome Pixel
  fs_main scaled_x scaled_y = do
    addr ←
        point_to_ip
          (record { x = axis (screen_axis scaled_x) 0; y = axis (screen_axis scaled_y) 0 })
    answer ← lookup_from get uniforms.root addr
    shade answer
