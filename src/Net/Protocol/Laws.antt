-- ===== src/Net/Protocol/Laws.antt =====
-- Laws of the packet names and of the envelope.
use crimson_desert_online_mo.Common.{
  ℕ, ◌≡◌, refl, sym, subst, ◌≢◌, inl, inr, true, some, List, [], ◌∷◌, String, arith, All,
  Option-cases, eq_iff,
}
use crimson_desert_online_mo.Net.Json.{JsonLib, IsJson}
use crimson_desert_online_mo.Net.Protocol.{
  PacketType, handshake, unknown, packet_table, type_in, packet_type_to_string,
  packet_type_from_string, serialize_packet, deserialize_packet, envelope, read_envelope,
}

-- Every packet type is read back from its name.
pub from_string-to_string : (t : PacketType) → packet_type_from_string (packet_type_to_string t) ≡ t
unfolding packet_type_from_string packet_type_to_string
from_string-to_string handshake = refl
from_string-to_string _ = refl

abbrev Named : PacketType × String → Type 0
Named (t, name) = packet_type_to_string t ≡ name

packet_table-Named : All Named packet_table
unfolding packet_type_to_string
packet_table-Named = ground arith

type_in-Named :
    (es : List (PacketType × String)) (s : String)
    → All Named es
    → type_in es s ≢ unknown
    → packet_type_to_string (type_in es s) ≡ s
unfolding type_in
type_in-Named [] s h known = absurd (known refl)
type_in-Named ((u, name) ∷ es) s h known =
    ground (arith, eq_iff s name, h.0, type_in-Named es s h.1)

-- A text that is read as a known packet type is the name of that type.
pub to_string-from_string :
    (s : String)
    → packet_type_from_string s ≢ unknown
    → packet_type_to_string (packet_type_from_string s) ≡ s
unfolding packet_type_from_string
to_string-from_string s known = type_in-Named packet_table s packet_table-Named known

module _ (L : JsonLib) (laws : IsJson L) where
  open L use {Value, parse, dump, contains, at, get_text, is_object}

  -- Where the JSON library keeps its documented laws and reads back the text that it dumps for the
  -- envelope, what is serialised is read back: the type and the payload.
  pub deserialize-serialize :
      (t : PacketType) (payload : Value)
      → parse (dump (envelope L t payload)) ≡ some (envelope L t payload)
      → deserialize_packet L (serialize_packet L t payload) ≡ (t, payload)
  unfolding deserialize_packet serialize_packet
  deserialize-serialize t payload round =
      let kvs : List (String × Value) =
        ("t", L.text (packet_type_to_string t)) ∷ ("d", payload) ∷ [] in
      ground (
        arith,
        round,
        laws.is_object-object kvs,
        laws.contains-object kvs "t",
        laws.contains-object kvs "d",
        laws.at-object kvs "t" (L.text (packet_type_to_string t)) refl,
        laws.at-object kvs "d" payload refl,
        laws.get_text-text (packet_type_to_string t),
        from_string-to_string t,
      )

  abbrev Known : Value → PacketType → Type 0
  Known j t =
      (is_object j ≡ true)
      × (contains j "t" ≡ true)
      × (get_text (at j "t") ≡ some (packet_type_to_string t))

  read_envelope-Known :
      (j : Value) → (read_envelope L (some j)).0 ≢ unknown → Known j (read_envelope L (some j)).0
  read_envelope-Known j known = elim (Option-cases (get_text (at j "t"))) [
    | inl e ↦ ground (arith, e)
    | inr (s, e) ↦ ground (arith, e, to_string-from_string s)
  ]

  -- A frame whose type is known is the text of an object that names the type under "t".
  pub deserialize_known :
      (raw : List ℕ)
      → (deserialize_packet L raw).0 ≢ unknown
      → (j : Value) × (parse raw ≡ some j) × Known j (deserialize_packet L raw).0
  unfolding deserialize_packet
  deserialize_known raw known = elim (Option-cases (parse raw)) [
    | inl e ↦ absurd (known (rw e))
    | inr (j, e) ↦ (
      j,
      e,
      subst (λ o. Known j (read_envelope L o).0) (sym e)
          (read_envelope-Known j (subst (λ o. (read_envelope L o).0 ≢ unknown) e known)),
    )
  ]
