-- ===== src/Net/Send/Wire.antt =====
-- What goes out on the wire: whole frames that the receiving loop reads back, or a frame cut short.
use crimson_desert_online_mo.Common.{
  ℕ, zero, suc, ◌+◌, ◌≤◌, ◌<◌, ◌≡◌, refl, sym, ap, ◌∙◌, ◌↔◌, true, false, none, some, List, [], ◌∷◌,
  ◌++◌, append_assoc, append-nil, map, length, take, drop, All, take-append-drop, length-drop,
  concat, arith,
}
use crimson_desert_online_mo.Net.Json.{JsonLib}
use crimson_desert_online_mo.Net.Frame.{IsByte, max_size, send_frame}
use crimson_desert_online_mo.Net.Frame.RoundTrip.{parse_frame-send_frame}
use crimson_desert_online_mo.Net.Receive.{waiting, stop, emit, on_frame, drain_all}
use crimson_desert_online_mo.Net.Receive.Chunks.{drain_all-nil, drain_all-got}
use crimson_desert_online_mo.Net.Send.{
  Answer, Sent, Socket, send_all, send_message, send_each, flush_send_queue,
}

-- What `SendAll` puts out is a prefix of the data, and its answer tells whether it is all of it.
abbrev Prefixes : List ℕ → Sent → Type 0
Prefixes cs s = (rest : List ℕ) × (cs ≡ s.wire ++ rest) × ((s.ok ≡ true) ↔ (rest ≡ []))

pub send_all-Prefixes : (answers : List Answer) (cs : List ℕ) → Prefixes cs (send_all answers cs)
unfolding send_all
send_all-Prefixes answers [] = ([], refl, ((λ _. refl), (λ _. refl)))
send_all-Prefixes [] (c ∷ cs) = (c ∷ cs, refl, ground arith)
send_all-Prefixes (none ∷ answers) (c ∷ cs) = (c ∷ cs, refl, ground arith)
send_all-Prefixes (some zero ∷ answers) (c ∷ cs) = (c ∷ cs, refl, ground arith)
send_all-Prefixes (some (suc n) ∷ answers) (c ∷ cs) =
    let (rest, split, done) = send_all-Prefixes answers (drop n cs) in
    (
      rest,
      ap (◌∷◌ c) (
          sym (take-append-drop n cs)
          ∙ ap (◌++◌ (take n cs)) split
          ∙ sym (append_assoc (take n cs) (send_all answers (drop n cs)).wire rest)),
      done,
    )

send_all_whole :
    (answers : List Answer) (cs : List ℕ)
    → (send_all answers cs).ok ≡ true
    → (send_all answers cs).wire ≡ cs
send_all_whole answers cs h =
    let (rest, split, done) = send_all-Prefixes answers cs in
    sym (split ∙ rw (done.0 h, append-nil))

send_all_blocked :
    (answers : List Answer) (cs : List ℕ)
    → 0 < length cs
    → send_all (none ∷ answers) cs ≡ record { ok = false; wire = []; left = answers }
unfolding send_all
send_all_blocked answers [] h = absurd (omega arith)
send_all_blocked answers (c ∷ cs) h = refl

send_all_cut :
    (answers : List Answer) (n : ℕ) (cs : List ℕ)
    → suc n < length cs
    → send_all (some (suc n) ∷ none ∷ answers) cs
      ≡ record { ok = false; wire = take (suc n) cs; left = answers }
unfolding send_all
send_all_cut answers n [] h = absurd (omega arith)
send_all_cut answers n (c ∷ cs) h =
    rw (send_all_blocked answers (drop n cs) (omega (arith, length-drop n cs)))
      (rw (append-nil (take n cs)))

module _ (draw : ℕ → List ℕ) where
  -- Every `SendAll` of the flush succeeds.
  abbrev AllSent : Socket → List (List ℕ) → Type 0
  AllSent s [] = Unit {0}
  AllSent s (p ∷ ps) =
      ((send_all s.answers (send_frame (draw s.draws) p)).ok ≡ true)
      × AllSent (send_message draw s p) ps

  -- The frames of the messages, the first under the mask of number n.
  frames_from : ℕ → List (List ℕ) → List ℕ
  frames_from n [] = []
  frames_from n (p ∷ ps) = send_frame (draw n) p ++ frames_from (n + 1) ps

  flush_frames :
      (s : Socket) (ps : List (List ℕ))
      → AllSent s ps
      → (send_each draw s ps).wire ≡ s.wire ++ frames_from s.draws ps
  unfolding send_each frames_from
  flush_frames s [] h = sym (append-nil s.wire)
  flush_frames s (p ∷ ps) h =
      flush_frames (send_message draw s p) ps h.1
      ∙ unfold send_message in
        (rw (send_all_whole s.answers (send_frame (draw s.draws) p) h.0)
          (append_assoc s.wire (send_frame (draw s.draws) p) (frames_from (s.draws + 1) ps)))

  abbrev IsMask : List ℕ → Type 0
  IsMask m = (length m ≡ 4) × All IsByte m

  abbrev IsMessage : List ℕ → Type 0
  IsMessage p = All IsByte p × (length p ≤ max_size)

  frames-drained :
      (L : JsonLib) (n : ℕ) (ps : List (List ℕ))
      → ((k : ℕ) → IsMask (draw k))
      → All IsMessage ps
      → drain_all L (frames_from n ps)
        ≡ emit L (concat (map (on_frame L 0x1) ps)) (stop L waiting [])
  unfolding frames_from
  frames-drained L n [] masks h = drain_all-nil L
  frames-drained L n (p ∷ ps) masks h =
      drain_all-got L (send_frame (draw n) p ++ frames_from (n + 1) ps)
        (parse_frame-send_frame (draw n) p (frames_from (n + 1) ps) (masks n).0 (masks n).1 h.0.0
          h.0.1)
        refl
      ∙ rw (frames-drained L (n + 1) ps masks h.1) (simp append_assoc)

  -- If the masks are four bytes each, the messages are bytes that a string can hold, nothing is on
  -- the wire and the socket takes every frame, the queue is empty after the flush, and what went
  -- out is read back by the receiving loop as the messages that were queued, in their order, and
  -- nothing else.
  pub flush-drain :
      (L : JsonLib) (s : Socket) (ps : List (List ℕ))
      → ((k : ℕ) → IsMask (draw k))
      → All IsMessage ps
      → s.wire ≡ []
      → AllSent s ps
      → let (s', queue) = flush_send_queue draw s ps in
        (queue ≡ [])
        × (drain_all L s'.wire ≡ emit L (concat (map (on_frame L 0x1) ps)) (stop L waiting []))
  unfolding flush_send_queue
  flush-drain L s ps masks h fresh sent =
      (refl, rw (flush_frames s ps sent, fresh) (frames-drained L s.draws ps masks h))

  -- When the socket takes a part of a frame, not empty and not the whole, and then gives a negative
  -- answer, the rest of the frame is lost: the next message's frame follows the part, and the
  -- message is off the queue.
  pub flush_truncated :
      (answers : List Answer) (k n : ℕ) (wire p : List ℕ) (ps : List (List ℕ))
      → suc n < length (send_frame (draw k) p)
      → flush_send_queue draw
          (record { answers = some (suc n) ∷ none ∷ answers; draws = k; wire = wire })
          (p ∷ ps)
        ≡ flush_send_queue draw
            (record {
              answers = answers;
              draws = k + 1;
              wire = wire ++ take (suc n) (send_frame (draw k) p);
            })
            ps
  unfolding flush_send_queue send_each send_message
  flush_truncated answers k n wire p ps h = rw (send_all_cut answers n (send_frame (draw k) p) h)
