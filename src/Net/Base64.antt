-- ===== src/Net/Base64.antt =====
-- client/src/net/client.cpp: `Base64`, for the key of the handshake. `val` is an `int`, kept as its
-- 32-bit pattern; `bits`, which starts at -6, is kept as `held = bits + 6`, the number of bits that
-- are still to be written.
pub mod Laws
mod Tests
use crimson_desert_online_mo.Common.{
  ℕ, zero, suc, ◌+◌, ◌-◌, ◌*◌, ◌/◌, ◌%◌, ◌^◌, List, [], ◌∷◌, ◌++◌, ◌==◌, ltb, leb, if◌then◌else◌,
  length, get_or, codes,
}

alphabet : List ℕ
alphabet = codes "ABCDEFGHIJKLMNOPQRSTUVWXYZabcdefghijklmnopqrstuvwxyz0123456789+/"

pub tbl : ℕ → ℕ
tbl i = get_or alphabet i 0

-- `v >> k` on a 32-bit `int`: the sign bit comes in at the top.
pub shift_right : ℕ → ℕ → ℕ
shift_right v k = v / 2 ^ k + (if ltb v (2 ^ 31) then 0 else 2 ^ 32 - 2 ^ (32 - k))

-- `(val << 8) + data[i]`.
abbrev pub push_byte : ℕ → ℕ → ℕ
push_byte val byte = (val * 256 % 2 ^ 32 + byte) % 2 ^ 32

pub record Writer : Type 0 where
  pub val : ℕ
  pub held : ℕ
  pub out : List ℕ

-- `while (bits >= 0)`, which takes six bits a round.
write_sextets : ℕ → Writer → Writer
write_sextets zero w = w
write_sextets (suc fuel) w =
    let rest = write_sextets fuel (record w {
      held = w.held - 6;
      out = w.out ++ tbl (shift_right w.val (w.held - 6) % 64) ∷ [];
    }) in
    if leb 6 w.held then rest else w

-- At most twelve bits are held, so two rounds and the last test are enough.
write_byte : Writer → ℕ → Writer
write_byte w byte = write_sextets 3 (record w { val = push_byte w.val byte; held = w.held + 8 })

write_bytes : Writer → List ℕ → Writer
write_bytes w [] = w
write_bytes w (b ∷ bs) = write_bytes (write_byte w b) bs

-- `if (bits > -6)`: the bits that are left, filled up with zeros.
write_last : Writer → List ℕ
write_last w =
    if ltb 0 w.held
    then w.out ++ tbl (shift_right (w.val * 256 % 2 ^ 32) (w.held + 2) % 64) ∷ []
    else w.out

-- `while (out.size() % 4) out.push_back('=')`: three rounds at most.
pad : ℕ → List ℕ → List ℕ
pad zero out = out
pad (suc fuel) out =
    let rest = pad fuel (out ++ b'=' ∷ []) in if length out % 4 == 0 then out else rest

pub base64 : List ℕ → List ℕ
base64 bytes = pad 3 (write_last (write_bytes (record { val = 0; held = 0; out = [] }) bytes))
