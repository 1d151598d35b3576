-- ===== src/Net/Send.antt =====
-- client/src/net/client.cpp: `SendAll`, `WsClient::Send`, `SendFrame` and `FlushSendQueue`. The
-- answers of the socket's `send` and the draws of `std::random_device` are arguments.
pub mod Wire
mod Tests
use crimson_desert_online_mo.Common.{
  ℕ, zero, suc, ◌+◌, Bool, true, false, Option, none, some, List, [], ◌∷◌, ◌++◌, length, take, drop,
}
use crimson_desert_online_mo.Net.Frame.{send_frame}

-- `some n` accepts n bytes, `none` is a negative answer, such as WSAEWOULDBLOCK.
abbrev pub Answer : Type 0
Answer = Option ℕ

-- Whether all was sent, the bytes that went out, and the answers that are left. A list of answers
-- that ends stands for a socket that fails from then on.
pub record Sent : Type 0 where
  pub ok : Bool
  pub wire : List ℕ
  pub left : List Answer

-- `send` took n + 1 bytes.
abbrev after_some : List ℕ → Sent → Sent
after_some out s = record s { wire = out ++ s.wire }

pub send_all : List Answer → List ℕ → Sent
send_all answers [] = record { ok = true; wire = []; left = answers }
send_all [] (c ∷ cs) = record { ok = false; wire = []; left = [] }
send_all (none ∷ answers) (c ∷ cs) = record { ok = false; wire = []; left = answers }
send_all (some zero ∷ answers) (c ∷ cs) = record { ok = false; wire = []; left = answers }
send_all (some (suc n) ∷ answers) (c ∷ cs) =
    after_some (take (suc n) (c ∷ cs)) (send_all answers (drop (suc n) (c ∷ cs)))

-- What is outside the client: the answers to come, the number of masks drawn, the bytes sent.
pub record Socket : Type 0 where
  pub answers : List Answer
  pub draws : ℕ
  pub wire : List ℕ

-- `draw n` is the n-th mask.
module _ (draw : ℕ → List ℕ) where
  -- `SendFrame`, whose callers drop its result.
  pub send_message : Socket → List ℕ → Socket
  send_message s payload =
      let sent = send_all s.answers (send_frame (draw s.draws) payload) in
      record { answers = sent.left; draws = s.draws + 1; wire = s.wire ++ sent.wire }

  -- `while (!local.empty())` over the queue that was swapped out.
  pub send_each : Socket → List (List ℕ) → Socket
  send_each s [] = s
  send_each s (p ∷ ps) = send_each (send_message s p) ps

  -- The socket, and the queue that the swap leaves behind.
  pub flush_send_queue : Socket → List (List ℕ) → Socket × List (List ℕ)
  flush_send_queue s queue = (send_each s queue, [])
