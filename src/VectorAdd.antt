-- ===== src/VectorAdd.antt =====
-- 2026_6_25_topo_slowrank_bandwidth/bandwidth-roofline-mini/src/vector_add.cu: the kernel with its launch,
-- and the options of `main`, which src/reduction.cu reads in the same way.
-- What `strtoull`, `strtol` and `strtod` read at the front of a text, and what they leave, are
-- parameters. A text is the list of its bytes.
pub mod Sum
pub mod Options
mod Runs
use insist.Base.{
  ℕ, zero, suc, ◌+◌, ◌-◌, ◌*◌, ◌/◌, ◌%◌, ◌^◌, ltb, leb, ◌&&◌, ◌==◌, ◌||◌, Bool, true, false,
  if◌then◌else◌, Option, none, some, List, [], ◌∷◌, length, ℤ, pos, negsuc, to_i32,
}
use insist.Base.Loops.{for_below}
use insist.Base.Arrays.{write}
use insist.Floats.{Floats}
use insist.Demo.{codes, same_text}

-- `grid_size` of `main`: the sum is that of `std::uint64_t`, and of the `int` these are the 32 bits.
unfoldable pub grid_size : (n block_size : ℕ) → ℕ
grid_size n block_size = (n + block_size - 1) % 2 ^ 64 / block_size % 2 ^ 32

-- What the device launches: a grid of less than 2^31 blocks, of at most 1024 threads each. An empty
-- grid runs nothing either; `main` stops with an error where a launch is refused.
unfoldable pub launchable : (grid block_size : ℕ) → Bool
launchable grid block_size = ltb grid (2 ^ 31) && leb block_size 1024

module _ (fl : Floats) (a b : ℕ → fl.Float) where
  open fl use {Float, plus}

  unfoldable pub vector_add_kernel : (n block_size block tid : ℕ) → (ℕ → Float) → ℕ → Float
  vector_add_kernel n block_size block tid c =
      let idx = (block * block_size + tid) % 2 ^ 64 in
      if ltb idx n then write idx (plus (a idx) (b idx)) c else c

  unfoldable pub launch : (n block_size : ℕ) → (ℕ → Float) → ℕ → Float
  launch n block_size c =
      if launchable (grid_size n block_size) block_size
      then for_below (grid_size n block_size)
          (λ block. for_below block_size (λ tid. vector_add_kernel n block_size block tid)) c
      else c

-- The numbers of the C library: what is read, and the rest of the text.
pub record Numbers : Type 1 where
  pub Double : Type 0
  pub zero_double : Double
  pub is_positive : Double → Bool
  pub strtoull : List ℕ → ℕ × List ℕ
  pub strtol : List ℕ → ℤ × List ℕ
  pub strtod : List ℕ → Double × List ℕ

-- `end == s || *end != '\0'`
unfoldable pub not_all : List ℕ → List ℕ → Bool
not_all s [] = length s == 0
not_all s (c ∷ rest) = true

-- `v <= 0`
unfoldable pub not_positive : ℤ → Bool
not_positive (pos n) = n == 0
not_positive (negsuc n) = true

-- `static_cast<int>` of a `long`.
unfoldable pub long_to_i32 : ℤ → ℤ
long_to_i32 (pos n) = to_i32 n
long_to_i32 (negsuc n) = to_i32 (2 ^ 32 - 1 - n % 2 ^ 32)

unfoldable pub is_help : List ℕ → Bool
is_help flag = same_text flag (codes "--help") || same_text flag (codes "-h")

module _ (nm : Numbers) where
  open nm use {Double, zero_double, is_positive, strtoull, strtol, strtod}

  -- `none` is the exit with the message on an invalid number.
  unfoldable pub parse_u64 : List ℕ → Option ℕ
  parse_u64 s = let (v, rest) = strtoull s in if not_all s rest then none else some (v % 2 ^ 64)

  unfoldable pub parse_i32 : List ℕ → Option ℤ
  parse_i32 s =
      let (v, rest) = strtol s in
      if not_all s rest || not_positive v then none else some (long_to_i32 v)

  unfoldable pub parse_f64 : List ℕ → Option Double
  parse_f64 s =
      let (v, rest) = strtod s in
      if not_all s rest then none else if is_positive v then some v else none

  pub record Settings : Type 0 where
    pub n : ℕ
    pub warmup : ℤ
    pub repeat : ℤ
    pub block_size : ℤ
    pub peak_fp32_gflops : Double
    pub peak_mem_gbs : Double

  abbrev pub defaults : Settings
  defaults = record {
    n = 268435456;
    warmup = pos 10;
    repeat = pos 50;
    block_size = pos 256;
    peak_fp32_gflops = zero_double;
    peak_mem_gbs = zero_double;
  }

  -- What a flag with a value does.
  pub data Taken : Type 0 where
    taken : Settings → Taken
    bad_number : Taken
    unknown : Taken

  -- How the loop over the arguments ends: `main` goes on, or returns 0, or fails with a message.
  pub data Outcome : Type 0 where
    measure : Settings → Outcome
    helped : Outcome
    invalid_number : List ℕ → Outcome
    bad_argument : List ℕ → Outcome

  unfoldable pub store {ℓ} : {A : Type ℓ} → Option A → (A → Settings) → Taken
  store none put = bad_number
  store (some v) put = taken (put v)

  unfoldable pub take_value : (flag value : List ℕ) → Settings → Taken
  take_value flag value o =
      if same_text flag (codes "--n")
      then store (parse_u64 value) (λ v. record o { n = v })
      else if same_text flag (codes "--warmup")
      then store (parse_i32 value) (λ v. record o { warmup = v })
      else if same_text flag (codes "--repeat")
      then store (parse_i32 value) (λ v. record o { repeat = v })
      else if same_text flag (codes "--block")
      then store (parse_i32 value) (λ v. record o { block_size = v })
      else if same_text flag (codes "--peak-fp32-gflops")
      then store (parse_f64 value) (λ v. record o { peak_fp32_gflops = v })
      else if same_text flag (codes "--peak-mem-gbs")
      then store (parse_f64 value) (λ v. record o { peak_mem_gbs = v })
      else unknown

  -- The loop goes on after a flag that was taken.
  unfoldable pub proceed : (flag value : List ℕ) → Taken → (Settings → Outcome) → Outcome
  proceed flag value (taken o) next = next o
  proceed flag value bad_number next = invalid_number value
  proceed flag value unknown next = bad_argument flag

  -- The loop over `argv[1]`, `argv[2]`, ...
  unfoldable pub parse_args : List (List ℕ) → Settings → Outcome
  parse_args [] o = measure o
  parse_args (flag ∷ []) o = if is_help flag then helped else bad_argument flag
  parse_args (flag ∷ value ∷ rest) o =
      if is_help flag
      then helped
      else proceed flag value (take_value flag value o) (parse_args rest)
