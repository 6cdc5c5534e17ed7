-- ===== src/Softmax/Bench.antt =====
-- src/softmax_bench.cu: the arguments, the check of the block size and the launch. It repeats the kernel of
-- kernels/softmax_block.cu. `atoi` is a parameter; a text is the list of its bytes.
use insist.Base.{
  ℕ, ◌+◌, ◌-◌, ◌*◌, ◌%◌, ◌^◌, ◌==◌, ◌&&◌, leb, not, Bool, if◌then◌else◌, List, [], ◌∷◌, ◌++◌, ℤ,
  to_u32, bit_and,
}
use insist.Base.Loops.{for_below}
use insist.Floats.{Floats}
use insist.Demo.{codes, same_text}
use insist.Softmax.{softmax_block_kernel}

-- `get_int_arg`, on the arguments behind the name of the program.
unfoldable pub get_int_arg : (atoi : List ℕ → ℤ) → List (List ℕ) → (name : List ℕ) → ℤ → ℤ
get_int_arg atoi [] name default_value = default_value
get_int_arg atoi (flag ∷ []) name default_value = default_value
get_int_arg atoi (flag ∷ value ∷ rest) name default_value =
    let later = get_int_arg atoi (value ∷ rest) name default_value in
    if same_text flag (codes "--" ++ name) then atoi value else later

-- `(threads & (threads - 1)) == 0` on the bits of an `int`.
unfoldable pub threads_accepted : ℤ → Bool
threads_accepted threads = bit_and (to_u32 threads) ((to_u32 threads + (2 ^ 32 - 1)) % 2 ^ 32) == 0

-- The device takes blocks of 1 to 1024 threads.
unfoldable pub block_accepted : (threads : ℕ) → Bool
block_accepted threads = leb 1 threads && leb threads 1024

-- No index and no counter overflows an `int`.
unfoldable pub ints_fit : (rows cols : ℕ) → Bool
ints_fit rows cols = leb (rows * cols) (2 ^ 31) && leb (cols + 1024) (2 ^ 31)

-- The launch: a block for each row; a block that the device refuses leaves the output as it was. Where
-- an `int` may overflow, the code is undefined, and `undefined` is what it leaves. `late` tells, for
-- each row, which threads of its block are late.
unfoldable pub launch :
    (fl : Floats) (undefined x : ℕ → fl.Float) (rows cols threads : ℕ) (late : ℕ → ℕ → Bool)
    → (ℕ → fl.Float)
    → ℕ
    → fl.Float
launch fl undefined x rows cols threads late y =
    if not (block_accepted threads)
    then y
    else if ints_fit rows cols
    then for_below rows (λ row. softmax_block_kernel fl x rows cols threads (late row) row) y
    else undefined
