-- ===== src/Net/Base64/Tests.antt =====
-- The encoding of four bytes.
use crimson_desert_online_mo.Common.{◌≡◌, [], ◌∷◌, arith}
use crimson_desert_online_mo.Net.Base64.{base64}
use crimson_desert_online_mo.Net.Base64.Laws.{groups, base64-groups}

base64-groups_example : base64 (0 ∷ 255 ∷ 16 ∷ 77 ∷ []) ≡ groups (0 ∷ 255 ∷ 16 ∷ 77 ∷ [])
base64-groups_example = base64-groups (0 ∷ 255 ∷ 16 ∷ 77 ∷ []) (ground arith)
