-- ===== src/Network/Session/Contexts.antt =====
-- Who gets one of the contexts of core_daemon/network.c.
use hsbsw.Prelude.{ℕ, ◌+◌, List, [], ◌∷◌, Option, none, some, if◌then◌else◌}
use hsbsw.Device.Types.{Client}

-- How many contexts are in use.
abbrev pub in_use : List Client → ℕ
in_use [] = 0
in_use (c ∷ pool) = (if c.using then 1 else 0) + in_use pool

-- What has been handed out: a context, or NULL.
abbrev pub granted : Option ℕ → ℕ
granted none = 0
granted (some i) = 1
