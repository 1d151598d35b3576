-- ===== src/Net/Receive/Chunks.antt =====
-- The packets do not depend on how the stream is cut into `recv` calls.
use crimson_desert_online_mo.Common.{
  ℕ, zero, suc, ◌≤◌, ◌≡◌, refl, sym, ap, ◌∙◌, ◌≢◌, ◌⊎◌, inl, inr, false, List, [], ◌∷◌, ◌++◌,
  append_assoc, append-nil, ◌==◌, length, arith, Bool-cases, concat,
}
use crimson_desert_online_mo.Net.Json.{JsonLib}
use crimson_desert_online_mo.Net.Frame.{Parsed, wait, overlong, got, parse_frame}
use crimson_desert_online_mo.Net.Frame.Stream.{
  parse_frame-append, parse_frame_takes, parse_frame-nil,
}
use crimson_desert_online_mo.Net.Receive.{
  Status, waiting, closed, thrown, Event, Drained, stop, emit, on_frame, drain, drain_all, round,
  resume, on_bytes, on_chunks,
}

abbrev Parsed-Cases : Parsed → Type 0
Parsed-Cases p =
    (p ≡ wait) ⊎ ((p ≡ overlong) ⊎ ((o : ℕ) × (c : List ℕ) × (r : List ℕ) × (p ≡ got o c r)))

Parsed-cases : (p : Parsed) → Parsed-Cases p
Parsed-cases wait = inl refl
Parsed-cases overlong = inr (inl refl)
Parsed-cases (got o c r) = inr (inr (o, c, r, refl))

module _ (L : JsonLib) where
  drain-nil : (f : ℕ) → drain L f [] ≡ stop L waiting []
  unfolding drain
  drain-nil zero = refl
  drain-nil (suc f) = rw parse_frame-nil (unfold round in refl)

  -- More fuel than bytes changes nothing.
  drain_fuel : (f g : ℕ) (rx : List ℕ) → length rx ≤ f → length rx ≤ g → drain L f rx ≡ drain L g rx
  unfolding drain
  drain_fuel f g [] hf hg = drain-nil f ∙ sym (drain-nil g)
  drain_fuel zero g (x ∷ rx) hf hg = absurd (omega arith)
  drain_fuel (suc f) zero (x ∷ rx) hf hg = absurd (omega arith)
  drain_fuel (suc f) (suc g) (x ∷ rx) hf hg = elim (Parsed-cases (parse_frame (x ∷ rx))) [
    | inl e ↦ rw e
    | inr (inl e) ↦ rw e
    | inr (inr (o, c, r, e)) ↦
        let short = parse_frame_takes (x ∷ rx) e in
        rw (e, round, drain_fuel f g r (omega arith) (omega arith))
  ]

  -- What the first frame of the buffer decides.
  drain_all_step : (rx : List ℕ) → drain_all L rx ≡ round L (drain_all L) rx (parse_frame rx)
  unfolding drain_all drain
  drain_all_step [] = rw parse_frame-nil (unfold round in refl)
  drain_all_step (x ∷ rx) = elim (Parsed-cases (parse_frame (x ∷ rx))) [
    | inl e ↦ rw e (unfold round in refl)
    | inr (inl e) ↦ rw e (unfold round in refl)
    | inr (inr (o, c, r, e)) ↦
        let short = parse_frame_takes (x ∷ rx) e in
        rw (e, round, drain_fuel (length rx) (length r) r (omega arith) (omega arith))
  ]

  abbrev pub outcome : Drained L → List (Event L) × Status
  outcome d = (d.events, d.status)

  -- More bytes for a loop that has gone through `d`. Bytes behind the end of the loop stay unread.
  join_status : Status → Drained L → List ℕ → Drained L
  join_status waiting d more = emit L d.events (drain_all L (d.rest ++ more))
  join_status closed d more = record d { rest = d.rest ++ more }
  join_status thrown d more = record d { rest = d.rest ++ more }

  abbrev join : Drained L → List ℕ → Drained L
  join d more = join_status d.status d more

  join-emit :
      (s : Status) (es : List (Event L)) (d : Drained L) (more : List ℕ)
      → join_status s (emit L es d) more ≡ emit L es (join_status s d more)
  unfolding join_status
  join-emit waiting es d more = rw append_assoc
  join-emit closed es d more = refl
  join-emit thrown es d more = refl

  round-join :
      (rx more r c : List ℕ) (o : ℕ)
      → drain_all L (r ++ more) ≡ join (drain_all L r) more
      → round L (drain_all L) (rx ++ more) (got o c (r ++ more))
        ≡ join (round L (drain_all L) rx (got o c r)) more
  unfolding round
  round-join rx more r c o ih = elim (Bool-cases (o == 0x8)) [
    | inl e ↦ rw e (unfold join_status in refl)
    | inr e ↦ rw (e, ih) (sym (join-emit (drain_all L r).status (on_frame L o c) _ more))
  ]

  append_at :
      (f : ℕ) (rx more : List ℕ)
      → length rx ≤ f
      → drain_all L (rx ++ more) ≡ join (drain_all L rx) more
  append_at f [] more h = rw (drain_all_step [], parse_frame-nil) (unfold round join_status in refl)
  append_at zero (x ∷ xs) more h = absurd (omega arith)
  append_at (suc f) (x ∷ xs) more h =
      let rx : List ℕ = x ∷ xs in
      elim (Parsed-cases (parse_frame rx)) [
        | inl e ↦ rw (drain_all_step rx, e) (unfold round join_status in refl)
        | inr (inl e) ↦
            let whole : parse_frame rx ≢ wait = λ w. cc (e, w) in
            rw (drain_all_step rx, drain_all_step (rx ++ more), parse_frame-append rx more whole, e)
              (unfold round join_status in refl)
        | inr (inr (o, c, r, e)) ↦
            let whole : parse_frame rx ≢ wait = λ w. cc (e, w) in
            let short = parse_frame_takes rx e in
            rw (drain_all_step rx, drain_all_step (rx ++ more), parse_frame-append rx more whole, e)
              (round-join rx more r c o (append_at f r more (omega arith)))
      ]

  drain_all-append : (rx more : List ℕ) → drain_all L (rx ++ more) ≡ join (drain_all L rx) more
  drain_all-append rx more = append_at (length rx) rx more (omega arith)

  -- While the loop goes on, what is left holds no whole frame.
  abbrev IsSettled : Drained L → Type 0
  IsSettled d = d.status ≡ waiting → parse_frame d.rest ≡ wait

  drain_all-IsSettled : (f : ℕ) (rx : List ℕ) → length rx ≤ f → IsSettled (drain_all L rx)
  drain_all-IsSettled f [] h =
      rw (drain_all_step [], parse_frame-nil) (unfold round in λ _. parse_frame-nil)
  drain_all-IsSettled zero (x ∷ xs) h = absurd (omega arith)
  drain_all-IsSettled (suc f) (x ∷ xs) h =
      let rx : List ℕ = x ∷ xs in
      elim (Parsed-cases (parse_frame rx)) [
        | inl e ↦ rw (drain_all_step rx, e) (unfold round in λ _. e)
        | inr (inl e) ↦ rw (drain_all_step rx, e) (unfold round in λ w. cc w)
        | inr (inr (o, c, r, e)) ↦
            let short = parse_frame_takes rx e in
            rw (drain_all_step rx, e)
              (settled_round rx o c r (drain_all-IsSettled f r (omega arith)))
      ]
    where
      settled_round :
          (rx : List ℕ) (o : ℕ) (c r : List ℕ)
          → IsSettled (drain_all L r)
          → IsSettled (round L (drain_all L) rx (got o c r))
      settled_round rx o c r h = unfold round in ground (arith, h)

  nil_at :
      (s : Status) (d : Drained L)
      → d.status ≡ s
      → IsSettled d
      → outcome d ≡ outcome (join_status s d [])
  unfolding join_status
  nil_at waiting d e h =
      rw (append-nil d.rest, drain_all_step d.rest, h e)
        (unfold round in ground (arith, append-nil d.events))
  nil_at closed d e h = refl
  nil_at thrown d e h = refl

  cons_at :
      (s : Status) (d : Drained L) (c more : List ℕ)
      → d.status ≡ s
      → outcome (join (resume L s d c) more) ≡ outcome (join_status s d (c ++ more))
  unfolding resume join_status
  cons_at waiting d c more e = ap outcome (
      join-emit (drain_all L (d.rest ++ c)).status d.events (drain_all L (d.rest ++ c)) more
      ∙ ap (emit L d.events) (sym (drain_all-append (d.rest ++ c) more))
      ∙ ap (λ l. emit L d.events (drain_all L l)) (append_assoc d.rest c more))
  cons_at closed d c more e = rw e
  cons_at thrown d c more e = rw e

  resume-IsSettled :
      (s : Status) (d : Drained L) (c : List ℕ) → IsSettled d → IsSettled (resume L s d c)
  unfolding resume
  resume-IsSettled waiting d c h =
      drain_all-IsSettled (length (d.rest ++ c)) (d.rest ++ c) (omega arith)
  resume-IsSettled closed d c h = h
  resume-IsSettled thrown d c h = h

  chunks_at :
      (d : Drained L) (cs : List (List ℕ))
      → IsSettled d
      → outcome (on_chunks L d cs) ≡ outcome (join d (concat cs))
  unfolding on_chunks on_bytes
  chunks_at d [] h = nil_at d.status d refl h
  chunks_at d (c ∷ cs) h =
      chunks_at (resume L d.status d c) cs (resume-IsSettled d.status d c h)
      ∙ cons_at d.status d c (concat cs) refl

  -- However the bytes of the stream are cut into `recv` calls, the callbacks made and the way the
  -- loop stands are those of the whole stream parsed at once.
  pub on_chunks-concat :
      (cs : List (List ℕ))
      → outcome (on_chunks L (stop L waiting []) cs) ≡ outcome (drain_all L (concat cs))
  on_chunks-concat cs =
      chunks_at (stop L waiting []) cs (λ _. parse_frame-nil) ∙ unfold join_status in refl

  -- The fuel suffices: while the loop goes on, no whole frame is left in the buffer.
  pub drain_all_complete :
      (rx : List ℕ) → (drain_all L rx).status ≡ waiting → parse_frame (drain_all L rx).rest ≡ wait
  drain_all_complete rx = drain_all-IsSettled (length rx) rx (omega arith)

  pub drain_all-nil : drain_all L [] ≡ stop L waiting []
  drain_all-nil = rw (drain_all_step [], parse_frame-nil) (unfold round in refl)

  -- A frame at the front that is no close frame.
  pub drain_all-got :
      (rx : List ℕ) {o : ℕ} {c r : List ℕ}
      → parse_frame rx ≡ got o c r
      → (o == 0x8) ≡ false
      → drain_all L rx ≡ emit L (on_frame L o c) (drain_all L r)
  drain_all-got rx e open' = rw (drain_all_step rx, e) (unfold round in rw open')
