-- ===== src/Logger.antt =====
-- internal/shared/logger/logger.go: parseLevel. New sets up log/slog. strings.ToLower maps no letter
-- beyond ASCII to one of the letters of the names of the levels, so the ASCII letters are enough.
use secret_control_panel.Base.{leb, if◌then◌else◌, ◌==◌, nat_eq, ℕ, ◌+◌, ◌&&◌, map}
use secret_control_panel.Text.{Str, codes, str_eq}

pub data Level : Type 0 where
  level_debug : Level
  level_info : Level
  level_warn : Level
  level_error : Level

abbrev lower : ℕ → ℕ
lower c = if leb 65 c && leb c 90 then c + 32 else c

abbrev pub to_lower : Str → Str
to_lower = map lower

unfoldable pub parse_level : Str → Level
parse_level s =
    let name = to_lower s in
    if name == codes "debug"
    then level_debug
    else if name == codes "warn"
    then level_warn
    else if name == codes "error"
    then level_error
    else level_info
