-- ===== src/Net/Protocol/Tests.antt =====
-- The envelope of one packet.
use crimson_desert_online_mo.Common.{◌≡◌, refl}
use crimson_desert_online_mo.Net.Json.Sample.{Tree, absent, count, sample, sample-IsJson}
use crimson_desert_online_mo.Net.Protocol.{ping, envelope, serialize_packet, deserialize_packet}
use crimson_desert_online_mo.Net.Protocol.Laws.{deserialize-serialize}

abbrev ping_payload : Tree
ping_payload = count 7

abbrev ping_tree : Tree
ping_tree = envelope (sample absent) ping ping_payload

deserialize-serialize_example :
    deserialize_packet (sample ping_tree) (serialize_packet (sample ping_tree) ping ping_payload)
    ≡ (ping, ping_payload)
deserialize-serialize_example =
    deserialize-serialize (sample ping_tree) (sample-IsJson ping_tree) ping ping_payload refl
