-- ===== src/Net/Receive/Tests.antt =====
-- A frame that comes in two reads.
use crimson_desert_online_mo.Common.{ℕ, ◌≡◌, refl, ◌++◌, arith, List, [], ◌∷◌, concat}
use crimson_desert_online_mo.Net.Json.Sample.{absent, sample}
use crimson_desert_online_mo.Net.Frame.{send_frame, parse_frame, wait, got}
use crimson_desert_online_mo.Net.Receive.{waiting, stop, drain_all, on_chunks}
use crimson_desert_online_mo.Net.Receive.Chunks.{
  on_chunks-concat, outcome, drain_all_complete, drain_all-nil, drain_all-got,
}
use crimson_desert_online_mo.Net.Frame.RoundTrip.{parse_frame-send_frame}

abbrev two_reads : List (List ℕ)
two_reads = (0x81 ∷ 2 ∷ []) ∷ (104 ∷ 105 ∷ []) ∷ []

on_chunks-concat_example :
    outcome (sample absent) (on_chunks (sample absent) (stop (sample absent) waiting []) two_reads)
    ≡ outcome (sample absent) (drain_all (sample absent) (concat two_reads))
on_chunks-concat_example = on_chunks-concat (sample absent) two_reads

-- One frame and nothing behind it.
abbrev one_frame : List ℕ
one_frame = send_frame (1 ∷ 2 ∷ 3 ∷ 4 ∷ []) (104 ∷ []) ++ []

one_frame_got : parse_frame one_frame ≡ got 1 (104 ∷ []) []
one_frame_got =
    parse_frame-send_frame (1 ∷ 2 ∷ 3 ∷ 4 ∷ []) (104 ∷ []) [] refl (ground arith) (ground arith)
      (omega arith)

one_frame_waits : (drain_all (sample absent) one_frame).status ≡ waiting
one_frame_waits =
    rw (drain_all-got (sample absent) one_frame one_frame_got refl, drain_all-nil (sample absent))
      refl

drain_all_complete_example : parse_frame (drain_all (sample absent) one_frame).rest ≡ wait
drain_all_complete_example = drain_all_complete (sample absent) one_frame one_frame_waits
