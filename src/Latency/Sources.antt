-- ===== src/Latency/Sources.antt =====
-- What latency-sim/src/main.rs takes from other crates: the random number generator of `rand`, the
-- distributions, and floating-point numbers. Only the documented range of `Uniform` is assumed.
use fragging.Common.{ℕ, ◌<◌, ◌≤◌, Bool, List}

pub record Sources : Type 1 where
  -- `StdRng`
  pub Rng : Type 0
  -- `f32`
  pub Float : Type 0
  -- `StdRng::from_seed`
  pub from_seed : List ℕ → Rng
  -- `f32::default()`
  pub zero_float : Float
  -- `rng.random::<f32>()`
  pub random : Rng → Float × Rng
  -- `a >= b`
  pub ge : Float → Float → Bool
  -- `(n as f32 * factor) as u32`
  pub scale : ℕ → Float → ℕ
  -- `Uniform::new(0, high).unwrap().sample(rng)`
  pub uniform : ℕ → Rng → ℕ × Rng
  -- `Exp::new(1.0 / (mean as f32)).unwrap().sample(rng) as u64`
  pub exponential : ℕ → Rng → ℕ × Rng

-- `Uniform::new(0, high)` samples from `0` up to `high`, which it does not reach.
abbrev pub IsUniform : Sources → Type 0
IsUniform s = (high : ℕ) (rng : s.Rng) → 1 ≤ high → (s.uniform high rng).0 < high
