-- ===== src/Floats.antt =====
-- What the kernels compute with: the `float`s of the device and the functions of its library.
-- Nothing is assumed of the operations, so that what is proved of them holds with all rounding.
pub mod Collects
pub mod Strides
pub mod Trees
pub mod Exact
pub mod Naturals
use insist.Base.{ℕ}

pub record Floats : Type 1 where
  pub Float : Type 0
  pub zero_float : Float
  -- `-FLT_MAX` and `-CUDART_INF_F`
  pub lowest_float : Float
  pub negative_infinity : Float
  pub plus : Float → Float → Float
  pub minus : Float → Float → Float
  pub times : Float → Float → Float
  pub over : Float → Float → Float
  pub fmaxf : Float → Float → Float
  pub expf : Float → Float
  -- `__expf`, which is less exact
  pub fast_expf : Float → Float
  -- `rsqrtf((float)n)`
  pub rsqrt_of : ℕ → Float
