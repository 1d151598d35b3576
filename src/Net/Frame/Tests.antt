-- ===== src/Net/Frame/Tests.antt =====
-- Frames at concrete bytes.
use crimson_desert_online_mo.Common.{ℕ, ◌-◌, ◌^◌, ◌≡◌, refl, List, [], ◌∷◌, ◌++◌, arith, ◌≢◌}
use crimson_desert_online_mo.Net.Frame.{
  wait, overlong, got, send_frame, parse_frame, length_bytes, parse_body, read_length, read_mask,
  read_payload, unmask,
}
use crimson_desert_online_mo.Net.Frame.RoundTrip.{parse_frame-send_frame}
use crimson_desert_online_mo.Net.Frame.Overflow.{parse_frame_overlong}

abbrev mask_bytes : List ℕ
mask_bytes = 1 ∷ 2 ∷ 3 ∷ 4 ∷ []

abbrev hi : List ℕ
hi = 104 ∷ 105 ∷ []

-- An unmasked text frame of two bytes.
abbrev server_frame : List ℕ
server_frame = 0x81 ∷ 2 ∷ 104 ∷ 105 ∷ []

server_frame_whole : parse_frame server_frame ≢ wait
unfolding parse_frame parse_body read_length read_mask read_payload unmask
server_frame_whole e = cc

parse_frame-send_frame_example :
    parse_frame (send_frame mask_bytes hi ++ 9 ∷ []) ≡ got 1 hi (9 ∷ [])
parse_frame-send_frame_example =
    parse_frame-send_frame mask_bytes hi (9 ∷ []) refl (ground arith) (ground arith) (omega arith)

parse_frame_overlong_example :
    parse_frame (0x81 ∷ 127 ∷ (length_bytes 8 (2 ^ 64 - 10) ++ [])) ≡ overlong
parse_frame_overlong_example =
    parse_frame_overlong 0x81 (2 ^ 64 - 10) [] (omega arith) (omega arith)
