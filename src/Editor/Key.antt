-- ===== src/Editor/Key.antt =====
-- The key codes of xiaobaios/apps/vim_main.c.
use xiaobai_os.Base.{ℕ}

abbrev pub esc : ℕ
esc = 27

abbrev pub enter : ℕ
enter = 13

abbrev pub backspace : ℕ
backspace = 8

abbrev pub del : ℕ
del = 127

abbrev pub up : ℕ
up = 1001

abbrev pub down : ℕ
down = 1002

abbrev pub left : ℕ
left = 1003

abbrev pub right : ℕ
right = 1004

abbrev pub home : ℕ
home = 1005

abbrev pub end : ℕ
end = 1006
