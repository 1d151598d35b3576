-- ===== src/Net/Frame/Stream.antt =====
-- `parse_frame` on a buffer that grows: it waits until a frame is whole, and then later bytes
-- change nothing but the rest.
use crimson_desert_online_mo.Common.{
  ℕ, ◌+◌, ◌≤◌, Bool, true, false, ◌≡◌, refl, subst, ◌≢◌, inl, inr, Option, none, some, List, [],
  ◌++◌, ltb, length, get_or, take, drop, length-append, length-drop, length-take, drop-append_le,
  take-drop-append, get_or-append, arith, Bool-cases, Option-cases,
}
use crimson_desert_online_mo.Net.Frame.RoundTrip.{length-mask_from}
use crimson_desert_online_mo.Net.Frame.{
  Parsed, wait, overlong, got, read_length, read_mask, unmask, read_payload, parse_body,
  parse_frame,
}

-- The same answer with more bytes behind it.
abbrev pub behind : List ℕ → Parsed → Parsed
behind more wait = wait
behind more overlong = overlong
behind more (got opcode payload rest) = got opcode payload (rest ++ more)

module _ (rx more : List ℕ) where
  read_length-append :
      (low : ℕ) {r : ℕ × ℕ}
      → 2 ≤ length rx
      → read_length low rx ≡ some r
      → (read_length low (rx ++ more) ≡ some r) × (r.1 ≤ length rx)
  unfolding read_length
  read_length-append low h e = ground (
    arith,
    length-append rx more,
    get_or-append rx more 2 0,
    get_or-append rx more 3 0,
    take-drop-append 8 2 rx more,
  )

  read_mask-append :
      (masked : Bool) (h : ℕ) {r : List ℕ × ℕ}
      → h ≤ length rx
      → read_mask masked h rx ≡ some r
      → (read_mask masked h (rx ++ more) ≡ some r) × (r.1 ≤ length rx)
  unfolding read_mask
  read_mask-append false h fits e = ground arith
  read_mask-append true h fits e =
      ground (arith, length-append rx more, take-drop-append 4 h rx more)

  read_payload-append :
      (opcode : ℕ) (masked : Bool) (mask : List ℕ) (h len : ℕ)
      → h ≤ 14
      → h ≤ length rx
      → read_payload opcode masked mask h len rx ≢ wait
      → read_payload opcode masked mask h len (rx ++ more)
        ≡ behind more (read_payload opcode masked mask h len rx)
  unfolding read_payload
  read_payload-append opcode masked mask h len small fits whole = ground (
    arith,
    length-append rx more,
    take-drop-append len h rx more,
    drop-append_le (h + len) rx more,
  )

  -- The header's length is small.
  read_length_header : (low : ℕ) {r : ℕ × ℕ} → read_length low rx ≡ some r → (2 ≤ r.1) × (r.1 ≤ 10)
  unfolding read_length
  read_length_header low e = ground arith

  read_mask_header :
      (masked : Bool) (h : ℕ) {r : List ℕ × ℕ}
      → read_mask masked h rx ≡ some r
      → (h ≤ r.1) × (r.1 ≤ h + 4)
  unfolding read_mask
  read_mask_header false h e = ground arith
  read_mask_header true h e = ground arith

  with_length :
      (opcode : ℕ) (masked : Bool) (len h : ℕ)
      → h ≤ 10
      → h ≤ length rx
      → parse_body opcode masked (some (len, h)) rx ≢ wait
      → parse_body opcode masked (some (len, h)) (rx ++ more)
        ≡ behind more (parse_body opcode masked (some (len, h)) rx)
  unfolding parse_body
  with_length opcode masked len h small fits whole = elim (Option-cases (read_mask masked h rx)) [
    | inl e ↦ absurd (whole (rw (e, parse_body)))
    | inr ((mask, h'), e) ↦
        rw (e, (read_mask-append masked h fits e).0, parse_body)
          (read_payload-append opcode masked mask h' len
            (omega (arith, (read_mask_header masked h e).1)) (read_mask-append masked h fits e).1
            (rw (e, parse_body) at whole))
  ]

  parse_body-append :
      (opcode : ℕ) (masked : Bool) (low : ℕ)
      → 2 ≤ length rx
      → parse_body opcode masked (read_length low rx) rx ≢ wait
      → parse_body opcode masked (read_length low (rx ++ more)) (rx ++ more)
        ≡ behind more (parse_body opcode masked (read_length low rx) rx)
  parse_body-append opcode masked low two whole = elim (Option-cases (read_length low rx)) [
    | inl e ↦ absurd (whole (rw e (unfold parse_body in refl)))
    | inr ((len, h), e) ↦
        rw (e, (read_length-append low two e).0)
          (with_length opcode masked len h (read_length_header low e).1
            (read_length-append low two e).1
            (subst (λ o. parse_body opcode masked o rx ≢ wait) e whole))
  ]

-- A frame that is whole in the buffer is taken off whatever follows, and the same goes for a length
-- that throws.
pub parse_frame-append :
    (rx more : List ℕ)
    → parse_frame rx ≢ wait
    → parse_frame (rx ++ more) ≡ behind more (parse_frame rx)
unfolding parse_frame
parse_frame-append rx more whole = elim (Bool-cases (ltb (length rx) 2)) [
  | inl short ↦ absurd (whole (rw short))
  | inr long ↦
      let long' : ltb (length (rx ++ more)) 2 ≡ false = ground (arith, length-append rx more) in
      let first : get_or (rx ++ more) 0 0 ≡ get_or rx 0 0 =
        get_or-append rx more 0 0 (ground arith) in
      let second : get_or (rx ++ more) 1 0 ≡ get_or rx 1 0 =
        get_or-append rx more 1 0 (ground arith) in
      rw (long, long', first, second)
        (parse_body-append rx more _ _ _ (ground arith) (rw long at whole))
]

module _ (rx : List ℕ) where
  read_payload_takes :
      (opcode : ℕ) (masked : Bool) (mask : List ℕ) (h len : ℕ) {opcode' : ℕ} {payload rest : List ℕ}
      → 2 ≤ h
      → h ≤ 14
      → read_payload opcode masked mask h len rx ≡ got opcode' payload rest
      → 2 + length payload + length rest ≤ length rx
  unfolding read_payload unmask
  read_payload_takes opcode false mask h len two small e =
      ground (arith, length-drop h rx, length-drop (h + len) rx, length-take len (drop h rx))
  read_payload_takes opcode true mask h len two small e = ground (
    arith,
    length-drop h rx,
    length-drop (h + len) rx,
    length-take len (drop h rx),
    length-mask_from mask 0 (take len (drop h rx)),
  )

  parse_body_takes :
      (opcode : ℕ) (masked : Bool) (o : Option (ℕ × ℕ)) {opcode' : ℕ} {payload rest : List ℕ}
      → ((r : ℕ × ℕ) → o ≡ some r → (2 ≤ r.1) × (r.1 ≤ 10))
      → parse_body opcode masked o rx ≡ got opcode' payload rest
      → 2 + length payload + length rest ≤ length rx
  unfolding parse_body
  parse_body_takes opcode masked none header e = cc
  parse_body_takes opcode masked (some (len, h)) header e =
      elim (Option-cases (read_mask masked h rx)) [
        | inl e' ↦ cc (e, e')
        | inr ((mask, h'), e') ↦
            let (low, high) = read_mask_header rx [] masked h e' in
            let (two, ten) = header (len, h) refl in
            read_payload_takes opcode masked mask h' len (omega arith) (omega arith)
              (rw (e', parse_body) at e)
      ]

-- A frame that is taken off leaves fewer bytes: the payload goes, and at least two of header.
pub parse_frame_takes :
    (rx : List ℕ) {opcode : ℕ} {payload rest : List ℕ}
    → parse_frame rx ≡ got opcode payload rest
    → 2 + length payload + length rest ≤ length rx
unfolding parse_frame
parse_frame_takes rx e = elim (Bool-cases (ltb (length rx) 2)) [
  | inl short ↦ ground arith
  | inr long ↦ parse_body_takes rx _ _ _ (λ r. read_length_header rx [] _) (rw long at e)
]

pub parse_frame-nil : parse_frame [] ≡ wait
unfolding parse_frame
parse_frame-nil = refl
