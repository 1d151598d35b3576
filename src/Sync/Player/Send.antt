-- ===== src/Sync/Player/Send.antt =====
-- client/src/sync/player_sync.cpp: `SendLocalState` and `Tick`. Packets stand in the order in which
-- they are given to the client.
pub mod Groups
pub mod Carried
pub mod Received
pub mod Delivered
use crimson_desert_online_mo.Common.{
  ℕ, ◌+◌, Bool, true, false, not, ◌&&◌, ◌||◌, List, [], ◌∷◌, ◌++◌, String, ◌==◌, ltb, if◌then◌else◌,
}
use crimson_desert_online_mo.Net.Json.{JsonLib}
use crimson_desert_online_mo.Net.Protocol.{PacketType, state_update, animation_update}
use crimson_desert_online_mo.Game.Float.{fabs, float_lt}
use crimson_desert_online_mo.Game.Float.Arith.{float_sub}
use crimson_desert_online_mo.Game.Memory.{Memory, System, Vec3, read_u32, read_vec3}
use crimson_desert_online_mo.Game.Offsets.{GameOffsets, player_layout_resolved}
use crimson_desert_online_mo.Game.Resolve.{get_local_player_base}
use crimson_desert_online_mo.Sync.Player.{PlayerSync, PlayerState, AnimState, tm_none}
use crimson_desert_online_mo.Sync.Player.Gameplay.{read_local_gameplay}
use crimson_desert_online_mo.Sync.Player.Wire.{emit_gameplay_json, vec_value}
use crimson_desert_online_mo.Sync.Player.Motion.{apply_remote_state}

-- `fabs(a - b) > eps`.
unfoldable pub differs : ℕ → ℕ → ℕ → Bool
differs a b eps = float_lt eps (fabs (float_sub a b))

-- `VecDiff` with 0.01f.
pub vec_diff : Vec3 → Vec3 → ℕ → Bool
unfolding differs
vec_diff a b eps = differs a.x b.x eps || differs a.y b.y eps || differs a.z b.z eps

pub anim_changed : AnimState → AnimState → Bool
unfolding differs
anim_changed a b =
    not (a.anim_id == b.anim_id)
    || not (a.move_flags == b.move_flags)
    || not (a.combat_flags == b.combat_flags)
    || differs a.anim_time b.anim_time 0x3CA3D70A

-- What is read of the local player.
pub record Local : Type 0 where
  pub position : Vec3
  pub velocity : Vec3
  pub yaw : ℕ
  pub pitch : ℕ
  pub health : ℕ
  pub max_health : ℕ
  pub anim : AnimState
  pub gameplay : PlayerState

unfoldable pub read_local : System → Memory → GameOffsets → ℕ → Local
read_local sys mem g base = record {
  position = read_vec3 sys mem base g.off_position_x;
  velocity = read_vec3 sys mem base g.off_velocity_x;
  yaw = read_u32 sys mem base g.off_rotation_yaw;
  pitch = read_u32 sys mem base g.off_rotation_pitch;
  health = read_u32 sys mem base g.off_health;
  max_health = read_u32 sys mem base g.off_max_health;
  anim = record {
    anim_id = read_u32 sys mem base g.off_anim_id;
    anim_time = read_u32 sys mem base g.off_anim_time;
    move_flags = read_u32 sys mem base g.off_move_flags;
    combat_flags = read_u32 sys mem base g.off_combat_flags;
    blend_weight = read_u32 sys mem base g.off_blend_weight;
  };
  gameplay = read_local_gameplay sys mem g base;
}

-- `moved || healthChanged || animChanged || inTraversal`
unfoldable pub worth_sending : Local → PlayerSync → Bool
unfolding vec_diff anim_changed
worth_sending l s =
    vec_diff l.position s.last_pos 0x3C23D70A
    || differs l.health s.last_health 0x3F000000
    || anim_changed l.anim s.last_anim
    || (l.gameplay.traversal.present && not (l.gameplay.traversal.mode == tm_none))

module _ (L : JsonLib) where
  open L use {Value, text, number, object, integer, real, boolean, array}

  abbrev pub anim_value : AnimState → Value
  anim_value a = object (
      ("anim_id", integer a.anim_id)
      ∷ ("anim_time", real a.anim_time)
      ∷ ("move_flags", number a.move_flags)
      ∷ ("combat_flags", number a.combat_flags)
      ∷ ("blend_weight", real a.blend_weight)
      ∷ [])

  unfoldable pub player_members : String → Local → List (String × Value)
  player_members id l =
      ("id", text id)
      ∷ ("name", text "")
      ∷ ("position", vec_value L l.position)
      ∷ ("rotation", object (("yaw", real l.yaw) ∷ ("pitch", real l.pitch) ∷ []))
      ∷ ("velocity", vec_value L l.velocity)
      ∷ ("health", real l.health)
      ∷ ("maxHealth", real l.max_health)
      ∷ ("animState", anim_value l.anim)
      ∷ ("isHost", boolean false)
      ∷ ("ping", integer 0)
      ∷ []

  unfoldable pub player_value : String → Local → Value
  unfolding player_members
  player_value id l = object (player_members id l ++ emit_gameplay_json L l.gameplay)

  unfoldable pub packets : Local → PlayerSync → List (PacketType × Value)
  unfolding player_value anim_changed
  packets l s =
      (state_update, object (("players", array (player_value s.local_id l ∷ [])) ∷ []))
      ∷ (if anim_changed l.anim s.last_anim
          then (
            animation_update,
            object (("playerId", text s.local_id) ∷ ("animState", anim_value l.anim) ∷ []),
          )
            ∷ []
          else [])

  -- What was read, where it is worth a packet.
  unfoldable pub send_local : Local → PlayerSync → PlayerSync × List (PacketType × Value)
  unfolding worth_sending packets
  send_local l s = if not (worth_sending l s) then (s, []) else (
    record s { last_pos = l.position; last_health = l.health; last_anim = l.anim },
    packets l s,
  )

  -- `connected` is `client_ && client_->IsConnected()`.
  unfoldable pub send_local_state :
      System → Memory → GameOffsets → Bool → ℕ → PlayerSync → PlayerSync × List (PacketType × Value)
  unfolding send_local read_local
  send_local_state sys mem g connected now s =
      let base = get_local_player_base sys mem g in
      let due = record s { last_send_ms = now } in
      if not connected || s.suspended || ltb now (s.last_send_ms + 50)
      then (s, [])
      else if (base == 0) || not (player_layout_resolved g)
      then (due, [])
      else send_local (read_local sys mem g base) due

  pub record Ticked : Type 0 where
    pub sync : PlayerSync
    pub memory : Memory
    pub sent : List (PacketType × Value)

  unfoldable pub tick : System → GameOffsets → Bool → ℕ → PlayerSync → Memory → Ticked
  unfolding send_local_state
  tick sys g connected now s mem =
      let (s, sent) = send_local_state sys mem g connected now s in
      let (remotes, mem) = apply_remote_state sys g now s.remotes mem in
      record { sync = record s { remotes = remotes }; memory = mem; sent = sent }
