-- ===== src/Net/Frame/RoundTrip.antt =====
-- What `send_frame` writes, `parse_frame` reads.
use crimson_desert_online_mo.Common.{
  ℕ, zero, suc, ◌+◌, ◌*◌, ◌/◌, ◌%◌, ◌^◌, ◌≤◌, ◌<◌, bit_and, bit_or, true, ◌≡◌, refl, sym, ap, subst,
  ◌∙◌, append_assoc, inl, inr, some, List, [], ◌∷◌, ◌++◌, ltb, leb, length, get_or, take, drop, All,
  length-append, take-append_length, drop-append_length, drop-add, arith, Bool-cases,
}
use crimson_desert_online_mo.Common.Bits.{
  bit_xor_twice, low_bits, top_bit, set_top_bit, bit_or_byte,
}
use crimson_desert_online_mo.Net.Frame.{
  IsByte, max_size, mask_from, length_bytes, frame_header, send_frame, got, join_bytes, read_length,
  read_mask, unmask, read_payload, parse_body, parse_frame,
}

get_or-IsByte : (mask : List ℕ) (i : ℕ) → All IsByte mask → IsByte (get_or mask i 0)
get_or-IsByte [] i h = omega arith
get_or-IsByte (m ∷ ms) zero h = h.0
get_or-IsByte (m ∷ ms) (suc i) h = get_or-IsByte ms i h.1

pub mask_twice :
    (mask : List ℕ) (i : ℕ) (cs : List ℕ)
    → All IsByte mask
    → All IsByte cs
    → mask_from mask i (mask_from mask i cs) ≡ cs
unfolding mask_from
mask_twice mask i [] hm hc = refl
mask_twice mask i (c ∷ cs) hm hc = cc (
  bit_xor_twice c (get_or mask (i % 4) 0) hc.0 (get_or-IsByte mask (i % 4) hm),
  mask_twice mask (i + 1) cs hm hc.1,
)

pub length-mask_from :
    (mask : List ℕ) (i : ℕ) (cs : List ℕ) → length (mask_from mask i cs) ≡ length cs
unfolding mask_from
length-mask_from mask i [] = refl
length-mask_from mask i (c ∷ cs) = ap suc (length-mask_from mask (i + 1) cs)

-- One round of the loop, from the bytes above to those with the next one.
join_step : (acc q : ℕ) → acc ≡ q / 256 → q < 2 ^ 64 → bit_or (acc * 256 % 2 ^ 64) (q % 256) ≡ q
join_step acc q e h =
    let fits : acc * 256 % 2 ^ 64 ≡ acc * 256 = omega arith in
    rw fits (omega (arith, bit_or_byte acc (q % 256) (omega arith)))

-- Reading the eight length bytes gives the length.
pub join_bytes-length_bytes : (len : ℕ) → len < 2 ^ 64 → join_bytes 0 (length_bytes 8 len) ≡ len
unfolding join_bytes length_bytes
join_bytes-length_bytes len h =
    rw
      (
        join_step 0 (len / 2 ^ 56) (omega arith) (omega arith),
        join_step (len / 2 ^ 56) (len / 2 ^ 48) (omega arith) (omega arith),
        join_step (len / 2 ^ 48) (len / 2 ^ 40) (omega arith) (omega arith),
        join_step (len / 2 ^ 40) (len / 2 ^ 32) (omega arith) (omega arith),
        join_step (len / 2 ^ 32) (len / 2 ^ 24) (omega arith) (omega arith),
        join_step (len / 2 ^ 24) (len / 2 ^ 16) (omega arith) (omega arith),
        join_step (len / 2 ^ 16) (len / 2 ^ 8) (omega arith) (omega arith),
        join_step (len / 2 ^ 8) (len / 2 ^ 0) (omega arith) (omega arith),
      )
      (omega arith)

-- With the header's length read, the mask and the payload are taken off the buffer.
module _ (front mask body rest : List ℕ) (four : length mask ≡ 4) where
  abbrev buffer : List ℕ
  buffer = front ++ (mask ++ (body ++ rest))

  drop_front : drop (length front) buffer ≡ mask ++ (body ++ rest)
  drop_front = drop-append_length front (mask ++ (body ++ rest))

  drop_mask : drop (length front + 4) buffer ≡ body ++ rest
  drop_mask =
      drop-add (length front) 4 buffer
      ∙ ap (drop 4) drop_front
      ∙ subst (λ n. drop n (mask ++ (body ++ rest)) ≡ body ++ rest) four
          (drop-append_length mask (body ++ rest))

  drop_body : drop (length front + 4 + length body) buffer ≡ rest
  drop_body =
      drop-add (length front + 4) (length body) buffer
      ∙ ap (drop (length body)) drop_mask
      ∙ drop-append_length body rest

  take_mask : take 4 (drop (length front) buffer) ≡ mask
  take_mask =
      ap (take 4) drop_front
      ∙ subst (λ n. take n (mask ++ (body ++ rest)) ≡ mask) four
          (take-append_length mask (body ++ rest))

  take_body : take (length body) (drop (length front + 4) buffer) ≡ body
  take_body = ap (take (length body)) drop_mask ∙ take-append_length body rest

  whole_buffer : length buffer ≡ length front + 4 + length body + length rest
  whole_buffer = omega (
    arith,
    four,
    length-append front (mask ++ (body ++ rest)),
    length-append mask (body ++ rest),
    length-append body rest,
  )

  parse_body-masked :
      (opcode : ℕ)
      → length front ≤ 10
      → length body ≤ max_size
      → parse_body opcode true (some (length body, length front)) buffer
        ≡ got opcode (mask_from mask 0 body) rest
  unfolding parse_body read_mask read_payload unmask
  parse_body-masked opcode hf hb = ground (arith, take_mask, take_body, drop_body, whole_buffer)

-- A second byte and an extended length that give back the length `len`, whatever follows.
abbrev Encodes : ℕ → List ℕ → List ℕ → Type 0
Encodes len header tail =
    (b1 : ℕ) × (ext : List ℕ) × (header ≡ b1 ∷ ext)
    × (bit_and b1 0x80 ≡ 0x80)
    × (length ext ≤ 8)
    × (read_length (bit_and b1 0x7F) (0x81 ∷ b1 ∷ (ext ++ tail)) ≡ some (len, length ext + 2))

small_header : (len : ℕ) (tail : List ℕ) → len < 126 → Encodes len (bit_or 0x80 len % 256 ∷ []) tail
unfolding read_length
small_header len tail h =
    let byte : bit_or 0x80 len % 256 ≡ 128 + len = omega (arith, set_top_bit len (omega arith)) in
    let low : bit_and (128 + len) 0x7F ≡ len = omega (arith, low_bits (128 + len) (omega arith)) in
    (
      128 + len,
      [],
      rw byte,
      omega (arith, top_bit (128 + len) (omega arith)),
      omega arith,
      rw low (ground arith),
    )

medium_header :
    (len : ℕ) (tail : List ℕ)
    → len ≤ 0xFFFF
    → Encodes len (bit_or 0x80 126 ∷ len / 2 ^ 8 % 256 ∷ len % 256 ∷ []) tail
unfolding read_length
medium_header len tail h = (
  bit_or 0x80 126,
  len / 2 ^ 8 % 256 ∷ len % 256 ∷ [],
  refl,
  refl,
  omega arith,
  ground (arith, bit_or_byte (len / 2 ^ 8 % 256) (len % 256) (omega arith)),
)

large_header :
    (len : ℕ) (tail : List ℕ)
    → len ≤ max_size
    → Encodes len (bit_or 0x80 127 ∷ length_bytes 8 len) tail
unfolding read_length length_bytes
large_header len tail h = (
  bit_or 0x80 127,
  length_bytes 8 len,
  refl,
  refl,
  omega arith,
  ground (arith, join_bytes-length_bytes len (omega arith)),
)

frame_header-Encodes :
    (len : ℕ) (tail : List ℕ) → len ≤ max_size → Encodes len (frame_header len) tail
unfolding frame_header
frame_header-Encodes len tail h = elim (Bool-cases (ltb len 126)) [
  | inl small ↦ rw small (small_header len tail (ground arith))
  | inr not_small ↦ elim (Bool-cases (leb len 0xFFFF)) [
    | inl medium ↦ rw (not_small, medium) (medium_header len tail (ground arith))
    | inr large ↦ rw (not_small, large) (large_header len tail h)
  ]
]

parse_frame-masked :
    (b1 : ℕ) (ext mask body rest : List ℕ)
    → length mask ≡ 4
    → length ext ≤ 8
    → length body ≤ max_size
    → bit_and b1 0x80 ≡ 0x80
    → read_length (bit_and b1 0x7F) (0x81 ∷ b1 ∷ (ext ++ (mask ++ (body ++ rest))))
      ≡ some (length body, length ext + 2)
    → parse_frame (0x81 ∷ b1 ∷ (ext ++ (mask ++ (body ++ rest))))
      ≡ got 1 (mask_from mask 0 body) rest
unfolding parse_frame
parse_frame-masked b1 ext mask body rest four he hb masked len =
    let front_len : length ext + 2 ≡ suc (suc (length ext)) = omega arith in
    rw (masked, len, front_len)
      (ground (arith, parse_body-masked (0x81 ∷ b1 ∷ ext) mask body rest four 1 (omega arith) hb))

frame-append :
    (header mask body rest : List ℕ)
    → (0x81 ∷ header ++ (mask ++ body)) ++ rest ≡ 0x81 ∷ (header ++ (mask ++ (body ++ rest)))
frame-append header mask body rest = simp append_assoc

-- A frame that the client sends under a mask of four bytes, with a payload of bytes that a string
-- can hold, is read back whole, whatever follows it in the buffer: the text opcode, the payload
-- unmasked, and the bytes behind the frame.
pub parse_frame-send_frame :
    (mask payload rest : List ℕ)
    → length mask ≡ 4
    → All IsByte mask
    → All IsByte payload
    → length payload ≤ max_size
    → parse_frame (send_frame mask payload ++ rest) ≡ got 1 payload rest
unfolding send_frame
parse_frame-send_frame mask payload rest four hm hp fits =
    let body : List ℕ = mask_from mask 0 payload in
    let same : length body ≡ length payload = length-mask_from mask 0 payload in
    let (b1, ext, he, hb, hl, hr) =
      frame_header-Encodes (length payload) (mask ++ (body ++ rest)) fits in
    ap parse_frame (
      frame-append (frame_header (length payload)) mask body rest
      ∙ ap (λ h. 0x81 ∷ (h ++ (mask ++ (body ++ rest)))) he)
    ∙ parse_frame-masked b1 ext mask body rest four hl (omega (arith, same)) hb
        (hr ∙ ap (λ n. some (n, length ext + 2)) (sym same))
    ∙ ap (λ p. got 1 p rest) (mask_twice mask 0 payload hm hp)
