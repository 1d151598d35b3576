-- ===== src/Net/Frame.antt =====
-- client/src/net/client.cpp: RFC 6455 framing. `send_frame` is `WsClient::SendFrame` up to its
-- `SendAll`, with the four random mask bytes as an argument; `parse_frame` is one round of the
-- `while` loop of `WsClient::ReceiveLoop`, on the bytes of `rx` from `pos` on.
pub mod RoundTrip
pub mod Stream
pub mod Overflow
mod Tests
use crimson_desert_online_mo.Common.{
  ℕ, zero, suc, ◌+◌, ◌-◌, ◌*◌, ◌/◌, ◌%◌, ◌^◌, ◌<◌, bit_and, bit_or, bit_xor, Bool, true, false, not,
  Option, none, some, List, [], ◌∷◌, ◌++◌, ◌==◌, ltb, leb, if◌then◌else◌, length, get_or, take,
  drop,
}

abbrev pub IsByte : ℕ → Type 0
IsByte b = b < 256

-- `std::string::max_size()`, beyond which `resize` throws `std::length_error`.
abbrev pub max_size : ℕ
max_size = 2 ^ 63 - 1

-- `payload[i] ^ mask[i % 4]` for each byte from index `i` on.
unfoldable pub mask_from : List ℕ → ℕ → List ℕ → List ℕ
mask_from mask i [] = []
mask_from mask i (c ∷ cs) = bit_xor c (get_or mask (i % 4) 0) ∷ mask_from mask (i + 1) cs

-- `for (int i = 7; i >= 0; --i)` with `i + 1` rounds left: the bytes of the length, highest first.
pub length_bytes : ℕ → ℕ → List ℕ
length_bytes zero len = []
length_bytes (suc i) len = len / 2 ^ (i * 8) % 256 ∷ length_bytes i len

unfoldable pub frame_header : ℕ → List ℕ
frame_header len =
    if ltb len 126
    then bit_or 0x80 len % 256 ∷ []
    else if leb len 0xFFFF
    then bit_or 0x80 126 ∷ len / 2 ^ 8 % 256 ∷ len % 256 ∷ []
    else bit_or 0x80 127 ∷ length_bytes 8 len

-- FIN and the text opcode, the length, the mask, the masked payload.
unfoldable pub send_frame : List ℕ → List ℕ → List ℕ
send_frame mask payload = 0x81 ∷ frame_header (length payload) ++ (mask ++ mask_from mask 0 payload)

-- What one round does: it breaks off, throws, or takes one frame and leaves the other bytes.
pub data Parsed : Type 0 where
  wait : Parsed
  overlong : Parsed
  got : (opcode : ℕ) (payload rest : List ℕ) → Parsed

-- `payloadLen = (payloadLen << 8) | rx[pos + 2 + i]` on uint64_t.
pub join_bytes : ℕ → List ℕ → ℕ
join_bytes acc [] = acc
join_bytes acc (b ∷ bs) = join_bytes (bit_or (acc * 256 % 2 ^ 64) b) bs

-- The payload's length and the header's, from the low bits of the second byte.
read_length : ℕ → List ℕ → Option (ℕ × ℕ)
read_length low rx =
    if low == 126
    then if ltb (length rx) 4 then none else some (bit_or (get_or rx 2 0 * 256) (get_or rx 3 0), 4)
    else if low == 127
    then if ltb (length rx) 10 then none else some (join_bytes 0 (take 8 (drop 2 rx)), 10)
    else some (low, 2)

-- The mask and the header's length with it.
read_mask : Bool → ℕ → List ℕ → Option (List ℕ × ℕ)
read_mask false header_len rx = some (0 ∷ 0 ∷ 0 ∷ 0 ∷ [], header_len)
read_mask true header_len rx =
    if ltb (length rx) (header_len + 4)
    then none
    else some (take 4 (drop header_len rx), header_len + 4)

unmask : Bool → List ℕ → List ℕ → List ℕ
unmask false mask cs = cs
unmask true mask cs = mask_from mask 0 cs

-- `headerLen + payloadLen` is a sum of 64-bit numbers.
read_payload : ℕ → Bool → List ℕ → ℕ → ℕ → List ℕ → Parsed
read_payload opcode masked mask header_len len rx =
    if ltb (length rx) ((header_len + len) % 2 ^ 64)
    then wait
    else if ltb max_size len
    then overlong
    else got opcode (unmask masked mask (take len (drop header_len rx)))
        (drop (header_len + len) rx)

parse_body : ℕ → Bool → Option (ℕ × ℕ) → List ℕ → Parsed
parse_body opcode masked none rx = wait
parse_body opcode masked (some (len, header_len)) rx = elim (read_mask masked header_len rx) [
  | none ↦ wait
  | some (mask, h) ↦ read_payload opcode masked mask h len rx
]

pub parse_frame : List ℕ → Parsed
parse_frame rx =
    let b0 = get_or rx 0 0 in
    let b1 = get_or rx 1 0 in
    let masked = not (bit_and b1 0x80 == 0) in
    let body = parse_body (bit_and b0 0x0F) masked (read_length (bit_and b1 0x7F) rx) rx in
    if ltb (length rx) 2 then wait else body
