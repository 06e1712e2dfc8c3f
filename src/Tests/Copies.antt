-- ===== src/Tests/Copies.antt =====
-- The measuring and copying functions at concrete strings.
use xiaobai_os.Base.{◌≡◌, refl, some, none, [], ◌∷◌, Bytes, codes}
use xiaobai_os.Libc.Pointer.{Ptr, text}
use xiaobai_os.Libc.Copying.{strcpy}

abbrev ab : Bytes
ab = codes "ab"

abbrev room : Ptr
room = record { addr = 9; bytes = 7 ∷ 7 ∷ 7 ∷ 7 ∷ [] }

strcpy_runs : strcpy room (text 1 ab []) ≡ some (record room { bytes = 97 ∷ 98 ∷ 0 ∷ 7 ∷ [] })
unfolding strcpy
strcpy_runs = refl

strcpy_overruns : strcpy room (text 1 (codes "abcd") []) ≡ none
unfolding strcpy
strcpy_overruns = refl
