-- ===== src/Server/Config.antt =====
-- server/common/include/serverutil/config.h: settings from the environment. What `getenv` says of the
-- name is an argument.
use untitled.Base.{ℕ, ◌%◌, ◌^◌, ◌<◌, arith, List, [], ◌∷◌}
use untitled.Base.{Option, none, some, leb, ltb, not, ◌&&◌, if◌then◌else◌}
use untitled.Server.Text.{signed, skip_spaces, strtoull}

unfoldable pub env_string : Option (List ℕ) → List ℕ → List ℕ
env_string none fallback = fallback
env_string (some []) fallback = fallback
env_string (some (c ∷ cs)) fallback = c ∷ cs

-- What `strtol` reads out of the range of a long is above 65535 or negative as well.
unfoldable pub env_port : Option (List ℕ) → ℕ → ℕ
env_port none fallback = fallback
env_port (some []) fallback = fallback
env_port (some (c ∷ cs)) fallback =
    let (minus, n) = signed (skip_spaces (c ∷ cs)) in
    if not minus && ltb 0 n && leb n 65535 then n else fallback

-- `unsigned long` has 64 bits.
unfoldable pub env_uint : Option (List ℕ) → ℕ → ℕ
unfolding strtoull
env_uint none fallback = fallback
env_uint (some []) fallback = fallback
env_uint (some (c ∷ cs)) fallback = strtoull (c ∷ cs) % 2 ^ 32

-- Whatever the environment says, a server listens on a port that can be listened on.
env_port-lt :
    (value : Option (List ℕ)) (fallback : ℕ)
    → 0 < fallback
    → fallback < 2 ^ 16
    → (0 < env_port value fallback) × (env_port value fallback < 2 ^ 16)
unfolding env_port
env_port-lt none fallback h k = (h, k)
env_port-lt (some []) fallback h k = (h, k)
env_port-lt (some (c ∷ cs)) fallback h k = ground arith
