-- ===== src/Net/Base64/Laws.antt =====
-- `base64` is the encoding of RFC 4648, three bytes to four characters.
use crimson_desert_online_mo.Common.{
  ℕ, zero, suc, ◌+◌, ◌*◌, ◌/◌, ◌%◌, ◌^◌, ◌<◌, ◌≡◌, ◌≢◌, refl, sym, ◌∙◌, List, [], ◌∷◌, ◌++◌,
  append_assoc, append-nil, length, length-append, All, arith,
}
use crimson_desert_online_mo.Net.Frame.{IsByte}
use crimson_desert_online_mo.Net.Base64.{
  tbl, shift_right, push_byte, Writer, write_sextets, write_byte, write_bytes, write_last, pad,
  base64,
}

-- The format, group by group.
quad : ℕ → ℕ → ℕ → List ℕ
quad a b c = tbl (a / 4) ∷ tbl (a % 4 * 16 + b / 16) ∷ tbl (b % 16 * 4 + c / 64) ∷ tbl (c % 64) ∷ []

pub groups : List ℕ → List ℕ
unfolding quad
groups [] = []
groups (a ∷ []) = tbl (a / 4) ∷ tbl (a % 4 * 16) ∷ b'=' ∷ b'=' ∷ []
groups (a ∷ b ∷ []) = tbl (a / 4) ∷ tbl (a % 4 * 16 + b / 16) ∷ tbl (b % 16 * 4) ∷ b'=' ∷ []
groups (a ∷ b ∷ c ∷ rest) = quad a b c ++ groups rest

shift_two : (v : ℕ) → v < 2 ^ 32 → shift_right v 2 % 64 ≡ v / 4 % 64
unfolding shift_right
shift_two v h = ground arith

shift_four : (v : ℕ) → v < 2 ^ 32 → shift_right v 4 % 64 ≡ v / 16 % 64
unfolding shift_right
shift_four v h = ground arith

shift_six : (v : ℕ) → v < 2 ^ 32 → shift_right v 6 % 64 ≡ v / 64 % 64
unfolding shift_right
shift_six v h = ground arith

shift_zero : (v : ℕ) → v < 2 ^ 32 → shift_right v 0 % 64 ≡ v % 64
unfolding shift_right
shift_zero v h = ground arith

-- One byte on top of 0, 2 or 4 held bits.
byte_at_zero :
    (val a : ℕ) (out : List ℕ)
    → a < 256
    → write_byte (record { val = val; held = 0; out = out }) a
      ≡ record { val = push_byte val a; held = 2; out = out ++ tbl (a / 4) ∷ [] }
unfolding write_byte write_sextets
byte_at_zero val a out h =
    let e : shift_right (push_byte val a) 2 % 64 ≡ a / 4 =
      shift_two _ (omega arith) ∙ omega arith in
    rw e

byte_at_two :
    (val a b : ℕ) (out : List ℕ)
    → val % 256 ≡ a
    → b < 256
    → write_byte (record { val = val; held = 2; out = out }) b
      ≡ record { val = push_byte val b; held = 4; out = out ++ tbl (a % 4 * 16 + b / 16) ∷ [] }
unfolding write_byte write_sextets
byte_at_two val a b out ha h =
    let e : shift_right (push_byte val b) 4 % 64 ≡ a % 4 * 16 + b / 16 =
      shift_four _ (omega arith) ∙ omega arith in
    rw e

byte_at_four :
    (val b c : ℕ) (out : List ℕ)
    → val % 256 ≡ b
    → c < 256
    → write_byte (record { val = val; held = 4; out = out }) c ≡ record {
      val = push_byte val c;
      held = 0;
      out = (out ++ tbl (b % 16 * 4 + c / 64) ∷ []) ++ tbl (c % 64) ∷ [];
    }
unfolding write_byte write_sextets
byte_at_four val b c out hb h =
    let e : shift_right (push_byte val c) 6 % 64 ≡ b % 16 * 4 + c / 64 =
      shift_six _ (omega arith) ∙ omega arith in
    let f : shift_right (push_byte val c) 0 % 64 ≡ c % 64 =
      shift_zero _ (omega arith) ∙ omega arith in
    rw (e, f)

-- The rest of the conversion, from a writer.
finish : Writer → List ℕ → List ℕ
finish w bytes = pad 3 (write_last (write_bytes w bytes))

-- A whole group.
finish_three :
    (val a b c : ℕ) (out rest : List ℕ)
    → a < 256
    → b < 256
    → c < 256
    → finish (record { val = val; held = 0; out = out }) (a ∷ b ∷ c ∷ rest)
      ≡ finish
          (record {
            val = push_byte (push_byte (push_byte val a) b) c;
            held = 0;
            out = out ++ quad a b c;
          })
          rest
unfolding finish write_bytes quad
finish_three val a b c out rest ha hb hc =
    rw
      (
        byte_at_zero val a out ha,
        byte_at_two (push_byte val a) a b (out ++ tbl (a / 4) ∷ []) (omega arith) hb,
        byte_at_four (push_byte (push_byte val a) b) b c
            ((out ++ tbl (a / 4) ∷ []) ++ tbl (a % 4 * 16 + b / 16) ∷ []) (omega arith) hc,
      )
      (simp append_assoc)

pad_done : (f : ℕ) (out : List ℕ) → length out % 4 ≡ 0 → pad f out ≡ out
unfolding pad
pad_done zero out h = refl
pad_done (suc f) out h = ground arith

pad_more : (f : ℕ) (out : List ℕ) → length out % 4 ≢ 0 → pad (suc f) out ≡ pad f (out ++ b'=' ∷ [])
unfolding pad
pad_more f out h = ground arith

two_signs :
    (out : List ℕ) (x y : ℕ)
    → length out % 4 ≡ 0
    → pad 3 ((out ++ x ∷ []) ++ y ∷ []) ≡ out ++ x ∷ y ∷ b'=' ∷ b'=' ∷ []
two_signs out x y h =
    let two : List ℕ = (out ++ x ∷ []) ++ y ∷ [] in
    let three : List ℕ = two ++ b'=' ∷ [] in
    let e1 = length-append out (x ∷ []) in
    let e2 = length-append (out ++ x ∷ []) (y ∷ []) in
    let e3 = length-append two (b'=' ∷ []) in
    let e4 = length-append three (b'=' ∷ []) in
    pad_more 2 two (omega arith)
    ∙ pad_more 1 three (omega arith)
    ∙ pad_done 1 (three ++ b'=' ∷ []) (omega arith)
    ∙ simp append_assoc

one_sign :
    (out : List ℕ) (x y z : ℕ)
    → length out % 4 ≡ 0
    → pad 3 (((out ++ x ∷ []) ++ y ∷ []) ++ z ∷ []) ≡ out ++ x ∷ y ∷ z ∷ b'=' ∷ []
one_sign out x y z h =
    let two : List ℕ = (out ++ x ∷ []) ++ y ∷ [] in
    let three : List ℕ = two ++ z ∷ [] in
    let e1 = length-append out (x ∷ []) in
    let e2 = length-append (out ++ x ∷ []) (y ∷ []) in
    let e3 = length-append two (z ∷ []) in
    let e4 = length-append three (b'=' ∷ []) in
    pad_more 2 three (omega arith)
    ∙ pad_done 2 (three ++ b'=' ∷ []) (omega arith)
    ∙ simp append_assoc

-- The last group, with no byte, one, or two.
finish_none :
    (val : ℕ) (out : List ℕ)
    → length out % 4 ≡ 0
    → finish (record { val = val; held = 0; out = out }) [] ≡ out
unfolding finish write_bytes write_last
finish_none val out h = pad_done 3 out h

finish_one :
    (val a : ℕ) (out : List ℕ)
    → length out % 4 ≡ 0
    → a < 256
    → finish (record { val = val; held = 0; out = out }) (a ∷ []) ≡ out ++ groups (a ∷ [])
unfolding finish write_bytes write_last groups
finish_one val a out h ha =
    let e : shift_right (push_byte val a * 256 % 2 ^ 32) 4 % 64 ≡ a % 4 * 16 =
      shift_four _ (omega arith) ∙ omega arith in
    rw (byte_at_zero val a out ha, e) (two_signs out (tbl (a / 4)) (tbl (a % 4 * 16)) h)

finish_two :
    (val a b : ℕ) (out : List ℕ)
    → length out % 4 ≡ 0
    → a < 256
    → b < 256
    → finish (record { val = val; held = 0; out = out }) (a ∷ b ∷ []) ≡ out ++ groups (a ∷ b ∷ [])
unfolding finish write_bytes write_last groups
finish_two val a b out h ha hb =
    let e : shift_right (push_byte (push_byte val a) b * 256 % 2 ^ 32) 6 % 64 ≡ b % 16 * 4 =
      shift_six _ (omega arith) ∙ omega arith in
    rw
      (
        byte_at_zero val a out ha,
        byte_at_two (push_byte val a) a b (out ++ tbl (a / 4) ∷ []) (omega arith) hb,
        e,
      )
      (one_sign out (tbl (a / 4)) (tbl (a % 4 * 16 + b / 16)) (tbl (b % 16 * 4)) h)

finish-groups :
    (val : ℕ) (out bytes : List ℕ)
    → length out % 4 ≡ 0
    → All IsByte bytes
    → finish (record { val = val; held = 0; out = out }) bytes ≡ out ++ groups bytes
finish-groups val out [] h hb = finish_none val out h ∙ unfold groups in sym (append-nil out)
finish-groups val out (a ∷ []) h hb = finish_one val a out h hb.0
finish-groups val out (a ∷ b ∷ []) h hb = finish_two val a b out h hb.0 hb.1.0
finish-groups val out (a ∷ b ∷ c ∷ rest) h (ha, (hb, (hc, hr))) =
    let longer = length-append out (quad a b c) in
    finish_three val a b c out rest ha hb hc
    ∙ finish-groups (push_byte (push_byte (push_byte val a) b) c) (out ++ quad a b c) rest
        (unfold quad in omega (arith, longer)) hr
    ∙ unfold groups in append_assoc out (quad a b c) (groups rest)

-- Of a list of bytes, the loop over bits, on a 32-bit `int` that overflows, gives the encoding by
-- groups of three bytes.
pub base64-groups : (bytes : List ℕ) → All IsByte bytes → base64 bytes ≡ groups bytes
unfolding base64 finish
base64-groups bytes h = finish-groups 0 [] bytes refl h
