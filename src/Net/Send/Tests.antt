-- ===== src/Net/Send/Tests.antt =====
-- A queue of two messages, and a socket that takes part of a frame.
use crimson_desert_online_mo.Common.{
  ℕ, ◌≡◌, refl, true, none, some, List, [], ◌∷◌, map, concat, take, length, ◌<◌, arith,
}
use crimson_desert_online_mo.Net.Json.Sample.{absent, sample}
use crimson_desert_online_mo.Net.Frame.{send_frame, frame_header, mask_from}
use crimson_desert_online_mo.Net.Receive.{waiting, stop, emit, on_frame, drain_all}
use crimson_desert_online_mo.Net.Send.{Socket, send_all, send_message, flush_send_queue}
use crimson_desert_online_mo.Net.Send.Wire.{flush-drain, flush_truncated}

abbrev one_mask : ℕ → List ℕ
one_mask k = 1 ∷ 2 ∷ 3 ∷ 4 ∷ []

abbrev two_messages : List (List ℕ)
two_messages = (104 ∷ []) ∷ (105 ∷ 106 ∷ []) ∷ []

-- It takes the first frame at once and the second in two parts.
abbrev fresh_socket : Socket
fresh_socket = record { answers = some 7 ∷ some 3 ∷ some 5 ∷ []; draws = 0; wire = [] }

first_sent : (send_all fresh_socket.answers (send_frame (one_mask 0) (104 ∷ []))).ok ≡ true
unfolding send_all send_frame frame_header mask_from
first_sent = refl

second_sent :
    (send_all
      (send_message one_mask fresh_socket (104 ∷ [])).answers
      (send_frame (one_mask 1) (105 ∷ 106 ∷ []))).ok
    ≡ true
unfolding send_all send_message send_frame frame_header mask_from
second_sent = refl

flush-drain_example :
    (let (s', queue) = flush_send_queue one_mask fresh_socket two_messages in
      (queue ≡ [])
      × (drain_all (sample absent) s'.wire
          ≡ emit
              (sample absent)
              (concat (map (on_frame (sample absent) 0x1) two_messages))
              (stop (sample absent) waiting [])))
flush-drain_example =
    flush-drain one_mask (sample absent) fresh_socket two_messages (λ k. (refl, ground arith))
      (ground arith) refl (first_sent, (second_sent, tt))

part : 3 < length (send_frame (one_mask 0) (104 ∷ []))
unfolding send_frame frame_header mask_from
part = omega arith

flush_truncated_example :
    flush_send_queue one_mask
      (record { answers = some 3 ∷ none ∷ some 9 ∷ []; draws = 0; wire = [] })
      two_messages
    ≡ flush_send_queue one_mask
        (record {
          answers = some 9 ∷ [];
          draws = 1;
          wire = take 3 (send_frame (one_mask 0) (104 ∷ []));
        })
        ((105 ∷ 106 ∷ []) ∷ [])
flush_truncated_example =
    flush_truncated one_mask (some 9 ∷ []) 0 2 [] (104 ∷ []) ((105 ∷ 106 ∷ []) ∷ []) part
