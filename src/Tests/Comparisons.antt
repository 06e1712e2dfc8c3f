-- ===== src/Tests/Comparisons.antt =====
-- The comparisons and the character tests at concrete strings.
use xiaobai_os.Base.{◌≡◌, refl, arith, some, [], ◌∷◌, Bytes, codes, pos, negsuc}
use xiaobai_os.Libc.Pointer.{text}
use xiaobai_os.Libc.Comparing.{strcmp}
use xiaobai_os.Libc.Comparing.Order.{strcmp_high}

abbrev ab : Bytes
ab = codes "ab"

abbrev ac : Bytes
ac = codes "ac"

abbrev ad : Bytes
ad = codes "ad"

strcmp_runs : strcmp (text 1 ab []) (text 2 ac []) ≡ some (negsuc 0)
unfolding strcmp
strcmp_runs = refl

strcmp_runs_on : strcmp (text 2 ac []) (text 3 ad []) ≡ some (negsuc 0)
unfolding strcmp
strcmp_runs_on = refl

strcmp_high_example : strcmp (text 1 (97 ∷ 98 ∷ []) []) (text 2 (97 ∷ 200 ∷ []) []) ≡ some (pos 1)
strcmp_high_example =
    strcmp_high 1 2 98 200 (97 ∷ []) [] [] [] [] (omega arith) (omega arith) (omega arith)
      (omega arith)
