-- ===== src/Term/Keys.antt =====
-- fakeshell/term/keys.go: the type `Key`, a rune or a number above all runes.
use scomp_agent.Common.{ℕ, ◌+◌, Bool, not, ◌&&◌, leb, ◌==◌}

abbrev pub max_rune : ℕ
max_rune = 0x10ffff

abbrev pub key_up : ℕ
key_up = max_rune + 1

abbrev pub key_down : ℕ
key_down = max_rune + 2

abbrev pub key_right : ℕ
key_right = max_rune + 3

abbrev pub key_left : ℕ
key_left = max_rune + 4

abbrev pub key_home : ℕ
key_home = max_rune + 5

abbrev pub key_end : ℕ
key_end = max_rune + 6

abbrev pub key_delete : ℕ
key_delete = max_rune + 7

abbrev pub key_page_up : ℕ
key_page_up = max_rune + 8

abbrev pub key_page_down : ℕ
key_page_down = max_rune + 9

abbrev pub key_unknown : ℕ
key_unknown = max_rune + 10

abbrev pub key_ctrl_a : ℕ
key_ctrl_a = 0x01

abbrev pub key_ctrl_c : ℕ
key_ctrl_c = 0x03

abbrev pub key_ctrl_d : ℕ
key_ctrl_d = 0x04

abbrev pub key_ctrl_e : ℕ
key_ctrl_e = 0x05

abbrev pub key_backspace : ℕ
key_backspace = 0x7f

abbrev pub key_tab : ℕ
key_tab = 0x09

abbrev pub key_ctrl_k : ℕ
key_ctrl_k = 0x0b

abbrev pub key_ctrl_l : ℕ
key_ctrl_l = 0x0c

abbrev pub key_enter : ℕ
key_enter = 0x0d

abbrev pub key_ctrl_u : ℕ
key_ctrl_u = 0x15

abbrev pub key_ctrl_w : ℕ
key_ctrl_w = 0x17

abbrev pub key_esc : ℕ
key_esc = 0x1b

unfoldable pub printable : ℕ → Bool
printable k = leb 0x20 k && not (k == key_backspace) && leb k max_rune
