-- ===== src/Common/Flag.antt =====
-- include/entry.h, `usched_entry_flag_t`: the position of each flag in `entry->flags`. The flags up
-- to `relative_expire` are the client's, those from `init` on are the daemon's.
use usched.Base.{ℕ}

abbrev pub new : ℕ
new = 1

abbrev pub del : ℕ
del = 2

abbrev pub get : ℕ
get = 3

abbrev pub pause : ℕ
pause = 4

abbrev pub monthday_align : ℕ
monthday_align = 5

abbrev pub yearday_align : ℕ
yearday_align = 6

abbrev pub relative_trigger : ℕ
relative_trigger = 7

abbrev pub relative_expire : ℕ
relative_expire = 8

abbrev pub init : ℕ
init = 9

abbrev pub progress : ℕ
progress = 10

abbrev pub authorized : ℕ
authorized = 11

abbrev pub finish : ℕ
finish = 12

abbrev pub complete : ℕ
complete = 13

abbrev pub triggered : ℕ
triggered = 14

abbrev pub serialized : ℕ
serialized = 15

abbrev pub invalid : ℕ
invalid = 16

abbrev pub expired : ℕ
expired = 17

abbrev pub paused : ℕ
paused = 18

abbrev pub removed : ℕ
removed = 19
