-- ===== src/Sync/Player.antt =====
-- client/src/sync/player_sync.h and player_sync.cpp, with the player's state of net/protocol.h: the
-- other players of the session. An `int` and a `float` are bit patterns; times are whole
-- milliseconds; `none` stands for an exception.
pub mod Gameplay
pub mod Wire
pub mod Update
pub mod Writes
pub mod Motion
pub mod Send
pub mod Reach
pub mod Unplaced
pub mod Idle
pub mod Throttle
pub mod Sample
mod Tests
use crimson_desert_online_mo.Common.{
  ℕ, Bool, true, false, Option, none, some, List, [], String, str_eq, if◌then◌else◌,
}
use crimson_desert_online_mo.Common.Table.{Table, find, put, erase, find_or}
use crimson_desert_online_mo.Game.Memory.{Vec3}

abbrev pub zero_vec : Vec3
zero_vec = record { x = 0; y = 0; z = 0 }

-- `TraversalMode`.
abbrev pub tm_none : ℕ
tm_none = 0

abbrev pub tm_climbing : ℕ
tm_climbing = 1

abbrev pub tm_vaulting : ℕ
tm_vaulting = 2

abbrev pub tm_ledge_grab : ℕ
tm_ledge_grab = 3

abbrev pub tm_wall_run : ℕ
tm_wall_run = 4

abbrev pub tm_slide : ℕ
tm_slide = 5

abbrev pub tm_roll : ℕ
tm_roll = 6

abbrev pub tm_jump : ℕ
tm_jump = 7

abbrev pub tm_fall : ℕ
tm_fall = 8

abbrev pub tm_land : ℕ
tm_land = 9

pub record TraversalState : Type 0 where
  pub mode : ℕ
  pub anim_id : ℕ
  pub anim_time : ℕ
  pub target : Vec3
  pub progress : ℕ
  pub present : Bool

-- `PlayerStatePacket`. Three coordinates are one field.
pub record PlayerState : Type 0 where
  pub traversal : TraversalState
  pub skill_id : ℕ
  pub skill_phase : ℕ
  pub skill_anim_id : ℕ
  pub skill_target : Vec3
  pub skill_target_entity : ℕ
  pub skill_present : Bool
  pub active_vfx : List ℕ
  pub vfx_present : Bool
  pub status_flags : ℕ
  pub buff_ids : List ℕ
  pub status_present : Bool
  pub weapon_id : ℕ
  pub weapon_stance : ℕ
  pub off_hand_id : ℕ
  pub equipment_present : Bool
  pub is_mounted : Bool
  pub mount_entity_id : ℕ
  pub mount_anim_id : ℕ
  pub mount_anim_time : ℕ
  pub mount_position : Vec3
  pub mount_present : Bool
  pub dodge_x : ℕ
  pub dodge_y : ℕ
  pub dodge_present : Bool
  pub is_dead : Bool
  pub respawn_position : Vec3
  pub respawn_present : Bool
  pub death_present : Bool
  pub interaction_type : ℕ
  pub interaction_entity_id : ℕ
  pub interaction_present : Bool

-- `PlayerStatePacket{}`.
abbrev pub no_player_state : PlayerState
no_player_state = record {
  traversal = record {
    mode = tm_none;
    anim_id = 0;
    anim_time = 0;
    target = zero_vec;
    progress = 0;
    present = false;
  };
  skill_id = 0;
  skill_phase = 0;
  skill_anim_id = 0;
  skill_target = zero_vec;
  skill_target_entity = 0;
  skill_present = false;
  active_vfx = [];
  vfx_present = false;
  status_flags = 0;
  buff_ids = [];
  status_present = false;
  weapon_id = 0;
  weapon_stance = 0;
  off_hand_id = 0;
  equipment_present = false;
  is_mounted = false;
  mount_entity_id = 0;
  mount_anim_id = 0;
  mount_anim_time = 0;
  mount_position = zero_vec;
  mount_present = false;
  dodge_x = 0;
  dodge_y = 0;
  dodge_present = false;
  is_dead = false;
  respawn_position = zero_vec;
  respawn_present = false;
  death_present = false;
  interaction_type = 0;
  interaction_entity_id = 0;
  interaction_present = false;
}

pub record AnimState : Type 0 where
  pub anim_id : ℕ
  pub anim_time : ℕ
  pub move_flags : ℕ
  pub combat_flags : ℕ
  pub blend_weight : ℕ

abbrev pub no_anim : AnimState
no_anim = record {
  anim_id = 0;
  anim_time = 0;
  move_flags = 0;
  combat_flags = 0;
  blend_weight = 0x3F800000;
}

pub record RemotePlayer : Type 0 where
  pub id : String
  pub name : String
  pub current_pos : Vec3
  pub target_pos : Vec3
  pub velocity : Vec3
  pub current_health : ℕ
  pub max_health : ℕ
  pub last_anim : AnimState
  pub last_update_time : ℕ
  pub entity_base : ℕ
  pub is_host : Bool
  pub ping : ℕ
  pub in_cutscene : Bool
  pub gameplay : PlayerState
  pub prev_dead : Bool
  pub prev_anim_id : ℕ
  pub anim_change_streak : ℕ

-- `RemotePlayer{}`, with 100.f of health.
abbrev pub new_remote : RemotePlayer
new_remote = record {
  id = "";
  name = "";
  current_pos = zero_vec;
  target_pos = zero_vec;
  velocity = zero_vec;
  current_health = 0x42C80000;
  max_health = 0x42C80000;
  last_anim = no_anim;
  last_update_time = 0;
  entity_base = 0;
  is_host = false;
  ping = 0;
  in_cutscene = false;
  gameplay = no_player_state;
  prev_dead = false;
  prev_anim_id = 0;
  anim_change_streak = 0;
}

pub record PlayerSync : Type 0 where
  pub local_id : String
  pub last_send_ms : ℕ
  pub suspended : Bool
  pub remotes : Table RemotePlayer
  pub last_pos : Vec3
  pub last_health : ℕ
  pub last_anim : AnimState

-- `remotes_[id]`.
abbrev pub remote_at : String → Table RemotePlayer → RemotePlayer
remote_at id t = find_or id new_remote (find id t)

pub add_remote_player : String → String → PlayerSync → PlayerSync
add_remote_player id name s = record s {
  remotes = put id (record (remote_at id s.remotes) { id = id; name = name }) s.remotes;
}

pub remove_remote_player : String → PlayerSync → PlayerSync
remove_remote_player id s = record s { remotes = erase id s.remotes }

-- `it->second` is changed where the player is known.
abbrev pub change_by :
    String → (RemotePlayer → RemotePlayer) → Option RemotePlayer → PlayerSync → PlayerSync
change_by id f none s = s
change_by id f (some rp) s = record s { remotes = put id (f rp) s.remotes }

pub set_remote_cutscene : String → Bool → PlayerSync → PlayerSync
set_remote_cutscene id b s =
    change_by id (λ rp. record rp { in_cutscene = b }) (find id s.remotes) s

-- `lastHealth_ = -1.f`.
pub clear : PlayerSync → PlayerSync
clear s = record s { remotes = []; last_health = 0xBF800000 }

pub set_suspended : Bool → PlayerSync → PlayerSync
set_suspended b s = record s { suspended = b }

pub set_local_id : String → PlayerSync → PlayerSync
set_local_id id s = record s { local_id = id }

abbrev base_of : Option RemotePlayer → ℕ
base_of none = 0
base_of (some rp) = rp.entity_base

pub get_remote_entity_base : String → PlayerSync → ℕ
get_remote_entity_base id s = base_of (find id s.remotes)
