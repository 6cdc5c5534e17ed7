-- ===== src/VectorAdd/Options.antt =====
-- The options, one after the other.
use insist.Base.{ℕ, ◌≡◌, ap, ◌∙◌, ℤ, some, Bool, true, false, if◌then◌else◌, List, [], ◌∷◌, ◌++◌}
use insist.Demo.{codes, same_text}
use insist.VectorAdd.{
  parse_u64, parse_i32, parse_f64, store, Numbers, Settings, Taken, taken, bad_number, unknown,
  measure, helped, bad_argument, take_value, is_help, proceed, parse_args,
}

module _ (nm : Numbers) where
  open nm use {Double, is_positive, strtoull, strtol, strtod}

  -- Arguments that are accepted can be followed by others, which then start from the settings
  -- that these have made.
  parse_args-append :
      (first second : List (List ℕ)) (o made : Settings nm)
      → parse_args nm first o ≡ measure made
      → parse_args nm (first ++ second) o ≡ parse_args nm second made
  unfolding parse_args proceed
  parse_args-append [] second o made e = ap (parse_args nm second) (settings-eq e)
    where
      settings-eq : measure o ≡ measure made → o ≡ made
      settings-eq e = cc
  parse_args-append (flag ∷ []) second o made e = refused (is_help flag) e
    where
      refused :
          (t : Bool)
          → (if t then helped else bad_argument flag) ≡ measure made
          → parse_args nm (flag ∷ second) o ≡ parse_args nm second made
      refused true e = cc
      refused false e = cc
  parse_args-append (flag ∷ value ∷ rest) second o made e =
      go_on (is_help flag) (take_value nm flag value o)
        (λ next. parse_args-append rest second next made) e
    where
      go_on :
          (t : Bool) (r : Taken nm)
          → ((next : Settings nm)
              → parse_args nm rest next ≡ measure made
              → parse_args nm (rest ++ second) next ≡ parse_args nm second made)
          → (if t then helped else proceed nm flag value r (parse_args nm rest)) ≡ measure made
          → (if t then helped else proceed nm flag value r (parse_args nm (rest ++ second)))
            ≡ parse_args nm second made
      go_on true r ih e = cc
      go_on false (taken next) ih e = ih next e
      go_on false bad_number ih e = cc
      go_on false unknown ih e = cc

  -- What an option sets, with its flag, its value and the settings before and after it.
  pub data Sets (value : List ℕ) (o : Settings nm) : List ℕ → Settings nm → Type 0 where
    sets_n : (v : ℕ) → parse_u64 nm value ≡ some v → Sets value o (codes "--n") (record o { n = v })
    sets_warmup :
        (v : ℤ)
        → parse_i32 nm value ≡ some v
        → Sets value o (codes "--warmup") (record o { warmup = v })
    sets_repeat :
        (v : ℤ)
        → parse_i32 nm value ≡ some v
        → Sets value o (codes "--repeat") (record o { repeat = v })
    sets_block :
        (v : ℤ)
        → parse_i32 nm value ≡ some v
        → Sets value o (codes "--block") (record o { block_size = v })
    sets_gflops :
        (v : Double)
        → parse_f64 nm value ≡ some v
        → Sets value o (codes "--peak-fp32-gflops") (record o { peak_fp32_gflops = v })
    sets_gbs :
        (v : Double)
        → parse_f64 nm value ≡ some v
        → Sets value o (codes "--peak-mem-gbs") (record o { peak_mem_gbs = v })

  parse_args-Sets :
      (flag value : List ℕ) (o next : Settings nm)
      → Sets value o flag next
      → parse_args nm (flag ∷ value ∷ []) o ≡ measure next
  unfolding parse_args take_value is_help same_text store proceed
  parse_args-Sets flag value o next (sets_n v e) =
      ap (λ r. proceed nm flag value (store nm r (λ v. record o { n = v })) measure) e
  parse_args-Sets flag value o next (sets_warmup v e) =
      ap (λ r. proceed nm flag value (store nm r (λ v. record o { warmup = v })) measure) e
  parse_args-Sets flag value o next (sets_repeat v e) =
      ap (λ r. proceed nm flag value (store nm r (λ v. record o { repeat = v })) measure) e
  parse_args-Sets flag value o next (sets_block v e) =
      ap (λ r. proceed nm flag value (store nm r (λ v. record o { block_size = v })) measure) e
  parse_args-Sets flag value o next (sets_gflops v e) =
      ap (λ r. proceed nm flag value (store nm r (λ v. record o { peak_fp32_gflops = v })) measure)
        e
  parse_args-Sets flag value o next (sets_gbs v e) =
      ap (λ r. proceed nm flag value (store nm r (λ v. record o { peak_mem_gbs = v })) measure) e

  -- If the arguments up to the last option are accepted, and its value is a number in the range of
  -- its flag, for each of the six flags: the last option sets the field of its flag to this number,
  -- whatever the options in front of it, also with the same flag, have made of the field, and leaves
  -- the other fields as they have made them.
  pub parse_args-last :
      (first : List (List ℕ)) (flag value : List ℕ) (o made next : Settings nm)
      → parse_args nm first o ≡ measure made
      → Sets value made flag next
      → parse_args nm (first ++ flag ∷ value ∷ []) o ≡ measure next
  parse_args-last first flag value o made next e sets =
      parse_args-append first (flag ∷ value ∷ []) o made e
      ∙ parse_args-Sets flag value made next sets
