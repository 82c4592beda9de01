-- ===== src/Server/Address.antt =====
-- Client addresses: `rateLimitKey` of hubabox-proj/internal/server/ratelimit.go and
-- `isLoopbackRequest` of middleware.go, over `net.SplitHostPort`.
use hubabox.Base.{Bool, not, ◌||◌, ◌&&◌, [], ◌∷◌, ◌++◌, ◌==◌, if◌then◌else◌, Option, none, some}
use hubabox.Text.{Text, codes, contains_rune}
use hubabox.Text.Split.{cut}
use hubabox.Text.Assoc.{get_or}

abbrev has_bracket : Text → Bool
has_bracket s = contains_rune s b'[' || contains_rune s b']'

abbrev bare_host : Option (Text × Text) → Option Text
bare_host none = none
bare_host (some (host, port)) =
    if contains_rune port b':' || has_bracket host || has_bracket port then none else some host

abbrev bracketed_host : Option (Text × Text) → Option Text
bracketed_host none = none
bracketed_host (some (host, [])) = none
bracketed_host (some (host, c ∷ port)) =
    if c == b':' && not (contains_rune port b':' || contains_rune host b'[' || has_bracket port)
    then some host
    else none

-- The host of `net.SplitHostPort`, if it returns no error.
unfoldable pub split_host : Text → Option Text
split_host [] = none
split_host (c ∷ s) = if c == b'[' then bracketed_host (cut s b']') else bare_host (cut (c ∷ s) b':')

-- The host of an address, or all of it where it has no port.
abbrev pub host_of : Text → Text
host_of addr = get_or (split_host addr) addr

-- `rateLimitKey`
unfoldable pub rate_limit_key : Text → Text → Text
rate_limit_key route_key remote_addr = route_key ++ codes "|" ++ host_of remote_addr

-- `isLoopbackRequest`; `is_loopback` is `net.ParseIP` followed by `IsLoopback`, false on a text that
-- is no address.
unfoldable pub is_loopback_request : (Text → Bool) → Text → Bool
is_loopback_request is_loopback remote_addr = is_loopback (host_of remote_addr)
