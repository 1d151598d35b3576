-- ===== src/Net/Frame/Overflow.antt =====
-- A length so large that the header's length and it wrap round.
use crimson_desert_online_mo.Common.{ℕ, ◌-◌, ◌^◌, ◌≤◌, ◌<◌, ◌≡◌, List, ◌∷◌, ◌++◌, arith}
use crimson_desert_online_mo.Net.Frame.{
  length_bytes, overlong, read_length, read_mask, read_payload, parse_body, parse_frame,
}
use crimson_desert_online_mo.Net.Frame.RoundTrip.{join_bytes-length_bytes}

-- An unmasked frame whose 64-bit length lies within ten of 2^64 passes the test for a complete
-- frame, and the string that is to hold the payload cannot be made.
pub parse_frame_overlong :
    (b0 len : ℕ) (tail : List ℕ)
    → 2 ^ 64 - 10 ≤ len
    → len < 2 ^ 64
    → parse_frame (b0 ∷ 127 ∷ (length_bytes 8 len ++ tail)) ≡ overlong
unfolding parse_frame parse_body read_length read_mask read_payload length_bytes
parse_frame_overlong b0 len tail low high = ground (arith, join_bytes-length_bytes len high)
