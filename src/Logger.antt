-- ===== src/Logger.antt =====
-- internal/logger/logger.go. The handler itself, of package slog, is not modelled.
use cdp_go.Base.{bytes_eq, codes, if◌then◌else◌}
use cdp_go.Bridge.Config.{LoggerConfig}
use cdp_go.Strings.{Unicode, to_lower}

pub data Level : Type 0 where
  debug_level : Level
  info_level : Level
  warn_level : Level
  error_level : Level

-- The `switch` of `Setup`.
unfoldable pub level_of : Unicode → LoggerConfig → Level
level_of u c =
    let level = to_lower u c.level in
    if bytes_eq level (codes "debug")
    then debug_level
    else if bytes_eq level (codes "warn")
    then warn_level
    else if bytes_eq level (codes "error")
    then error_level
    else info_level
