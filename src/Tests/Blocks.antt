-- ===== src/Tests/Blocks.antt =====
-- The block operations at concrete memories.
use xiaobai_os.Base.{◌+◌, ◌-◌, ◌%◌, ◌≡◌, refl, arith, if◌then◌else◌}
use xiaobai_os.Libc.Memory.{Memory, memmove}
use xiaobai_os.Libc.Memory.Copy.{inside, memmove_lem}

-- Each address holds its own number.
abbrev ramp : Memory
ramp a = a % 256

memmove_runs : (memmove 12 10 5 ramp 16 ≡ 14) × (memmove 10 12 5 ramp 14 ≡ 16)
unfolding memmove
memmove_runs = (refl, refl)

memmove_lem_example :
    memmove 12 10 5 ramp 16 ≡ (if inside 12 5 16 then ramp (10 + (16 - 12)) else ramp 16)
memmove_lem_example = memmove_lem 12 10 5 ramp 16 (omega arith) (omega arith)
