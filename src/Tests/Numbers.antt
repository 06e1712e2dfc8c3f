-- ===== src/Tests/Numbers.antt =====
-- The number readers at concrete texts.
use xiaobai_os.Base.{◌≡◌, refl, some, [], codes, pos, negsuc}
use xiaobai_os.Libc.Ctype.{isspace, isxdigit}
use xiaobai_os.Libc.Pointer.{text}
use xiaobai_os.Libc.Number.{
  finish_unsigned, finish_signed, digit_value, strtoul, strtol, atoi, skip_from, sign, resolve_base,
  scan_digit, scan_digits,
}

-- " -128;" and "0xff;"
strtol_runs :
    strtol (text 1 (codes " -128;") []) 10
    ≡ some (record { result = negsuc 127; end = text 6 (codes ";") [] })
unfolding strtol skip_from sign resolve_base scan_digits scan_digit digit_value isspace
    finish_signed
strtol_runs = refl

atoi_runs : atoi (text 1 (codes "4294967297") []) ≡ some (pos 1)
unfolding atoi skip_from sign resolve_base scan_digits scan_digit digit_value isspace finish_signed
atoi_runs = refl

-- "0755" and "08" with the base 0, and "ff" with the base 16.
strtoul_bases :
    (strtoul (text 1 (codes "0755") []) 0
      ≡ some (record { result = 493; end = text 5 (codes "") [] }))
    × (strtoul (text 1 (codes "08") []) 0
        ≡ some (record { result = 0; end = text 2 (codes "8") [] }))
    × (strtoul (text 1 (codes "ff") []) 16
        ≡ some (record { result = 255; end = text 3 (codes "") [] }))
unfolding strtoul skip_from sign resolve_base scan_digits scan_digit digit_value isspace
    finish_unsigned isxdigit
strtoul_bases = (refl, refl, refl)
