-- ===== src/Tests/Searches.antt =====
-- The searches and the tokenizer at concrete strings.
use xiaobai_os.Base.{◌≡◌, refl, arith, some, [], Bytes, codes}
use xiaobai_os.Libc.Pointer.{Ptr, null, text}
use xiaobai_os.Libc.Searching.{strchr, strstr, Token, strtok_r}
use xiaobai_os.Libc.Searching.Substring.{FirstOf, strstr-FirstOf}
use xiaobai_os.Libc.Searching.Tokens.{TokenOf, strtok_r-TokenOf}

abbrev line : Bytes
line = codes "::ab:cd"

abbrev colon : Bytes
colon = codes ":"

strchr_runs : strchr (text 1 line []) 98 ≡ some (text 4 (codes "b:cd") [])
unfolding strchr
strchr_runs = refl

strstr-FirstOf_example :
    (p : Ptr) × (strstr (text 1 line []) (text 2 (codes "b:") []) ≡ some p)
    × FirstOf 1 (codes "b:") line [] p
strstr-FirstOf_example =
    strstr-FirstOf 1 2 line (codes "b:") [] [] (omega arith) (omega arith) (omega arith)
      (omega arith)

strtok_r-TokenOf_example :
    (z : Token) × (strtok_r (text 1 line []) (text 2 colon []) null ≡ some z)
    × (strtok_r null (text 2 colon []) (text 1 line []) ≡ some z)
    × TokenOf 1 colon line [] z
strtok_r-TokenOf_example =
    strtok_r-TokenOf 1 2 line [] colon [] null (omega arith) (omega arith) (omega arith)
      (omega arith)
