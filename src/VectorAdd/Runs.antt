-- ===== src/VectorAdd/Runs.antt =====
-- The theorems of the benchmark at concrete arrays and arguments.
use insist.Base.{
  ℕ, ◌+◌, ◌-◌, ◌*◌, ◌≡◌, refl, arith, leb, ◌&&◌, if◌then◌else◌, List, [], ◌∷◌, pos, to_i32,
}
use insist.Floats.Naturals.{naturals}
use insist.Demo.{codes, same_text}
use insist.VectorAdd.{
  Numbers, launch, Settings, defaults, parse_args, measure, take_value, store, proceed, is_help,
  parse_i32, not_all, not_positive, long_to_i32,
}
use insist.VectorAdd.Sum.{launch-sums}
use insist.VectorAdd.Options.{parse_args-last, sets_block}

-- Ten elements, in blocks of four.
launch-sums_example : launch naturals (λ i. i) (λ i. i * i) 10 4 (λ i. 7) 9 ≡ 90
launch-sums_example =
    launch-sums naturals (λ i. i) (λ i. i * i) 10 4 (λ i. 7) 9 (omega arith) (omega arith)
      (omega arith)

-- The digits at the front of a text.
read_digits : List ℕ → ℕ → ℕ × List ℕ
read_digits [] v = (v, [])
read_digits (c ∷ s) v =
    let rest = read_digits s (v * 10 + (c - 48)) in
    if leb 48 c && leb c 57 then rest else (v, c ∷ s)

abbrev digits_only : Numbers
digits_only = record {
  Double = ℕ;
  zero_double = 0;
  is_positive = leb 1;
  strtoull = λ s. read_digits s 0;
  strtol = λ s. let (v, rest) = read_digits s 0 in (pos v, rest);
  strtod = λ s. read_digits s 0;
}

abbrev small : Settings digits_only
small = record (defaults digits_only) { block_size = pos 64 }

small_read :
    parse_args digits_only (codes "--block" ∷ codes "64" ∷ []) (defaults digits_only)
    ≡ measure small
unfolding parse_args is_help take_value proceed store parse_i32 not_all not_positive long_to_i32
    read_digits same_text to_i32
small_read = refl

-- The second `--block` counts.
parse_args-last_example :
    parse_args digits_only
      (codes "--block" ∷ codes "64" ∷ codes "--block" ∷ codes "32" ∷ [])
      (defaults digits_only)
    ≡ measure (record small { block_size = pos 32 })
unfolding parse_i32 not_all not_positive long_to_i32 read_digits to_i32
parse_args-last_example =
    parse_args-last digits_only (codes "--block" ∷ codes "64" ∷ []) (codes "--block") (codes "32")
      (defaults digits_only) small (record small { block_size = pos 32 }) small_read
      (sets_block (pos 32) refl)
