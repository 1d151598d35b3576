-- ===== src/Sync/Player/Throttle.antt =====
-- client/src/sync/player_sync.cpp: how often `SendLocalState` sends, over a run of calls.
use crimson_desert_online_mo.Common.{
  ℕ, ◌+◌, ◌≤◌, ◌≡◌, ◌⊎◌, ◌↔◌, ◌≢◌, subst, Bool, true, false, List, [], ◌∷◌, if◌then◌else◌, arith,
  Bool-cases, inl, inr,
}
use crimson_desert_online_mo.Net.Json.{JsonLib}
use crimson_desert_online_mo.Net.Protocol.{PacketType}
use crimson_desert_online_mo.Game.Memory.{Memory, System}
use crimson_desert_online_mo.Game.Offsets.{GameOffsets, player_layout_resolved}
use crimson_desert_online_mo.Game.Resolve.{get_local_player_base}
use crimson_desert_online_mo.Sync.Player.{PlayerSync}
use crimson_desert_online_mo.Sync.Player.Send.{
  read_local, worth_sending, packets, send_local, send_local_state,
}

-- One call: when, in which memory, and whether the client is connected.
pub record SendCall : Type 0 where
  pub now : ℕ
  pub memory : Memory
  pub connected : Bool

module _ (L : JsonLib) (sys : System) (g : GameOffsets) where
  open L use {Value}

  abbrev pub is_empty : List (PacketType × Value) → Bool
  is_empty [] = true
  is_empty (p ∷ ps) = false

  -- The times of the calls that send.
  pub send_times : List SendCall → PlayerSync → List ℕ
  send_times [] s = []
  send_times (c ∷ cs) s =
      let (s, sent) = send_local_state L sys c.memory g c.connected c.now s in
      let rest = send_times cs s in if is_empty sent then rest else c.now ∷ rest

  -- Each at least 50 after the one before, the first at least 50 after `last`.
  abbrev pub Spaced : ℕ → List ℕ → Type 0
  Spaced last [] = Unit
  Spaced last (t ∷ ts) = (last + 50 ≤ t) × Spaced t ts

  Spaced-earlier : (early last : ℕ) (ts : List ℕ) → early ≤ last → Spaced last ts → Spaced early ts
  Spaced-earlier early last [] le sp = tt
  Spaced-earlier early last (t ∷ ts) le (after, sp) = (omega arith, sp)

  -- A call is early, and leaves the time of the last attempt, or sets it to now, 50 or more after.
  send_local_state-last :
      (mem : Memory) (connected : Bool) (now : ℕ) (s : PlayerSync)
      → let r = send_local_state L sys mem g connected now s in
        ((r.0.last_send_ms ≡ s.last_send_ms) × (r.1 ≡ []))
        ⊎ ((r.0.last_send_ms ≡ now) × (s.last_send_ms + 50 ≤ now))
  unfolding send_local_state send_local
  send_local_state-last mem connected now s = ground arith

  -- Over any run of calls at any times, with any memory each, the calls that send packets are at
  -- least 50 milliseconds apart, and the first of them comes at least 50 milliseconds after the
  -- time that the state holds.
  pub send_times-Spaced :
      (cs : List SendCall) (s : PlayerSync) → Spaced s.last_send_ms (send_times cs s)
  unfolding send_times
  send_times-Spaced [] s = tt
  send_times-Spaced (c ∷ cs) s =
      let after = (send_local_state L sys c.memory g c.connected c.now s).0 in
      let rest = send_times-Spaced cs after in
      elim (send_local_state-last c.memory c.connected c.now s) [
        | inl (same, nothing) ↦ rw nothing (rw same at rest)
        | inr (late, due) ↦
            let later : Spaced c.now (send_times cs after) =
              subst (λ t. Spaced t (send_times cs after)) late rest in
            elim (Bool-cases (is_empty (send_local_state L sys c.memory g c.connected c.now s).1)) [
              | inl nothing ↦
                  rw nothing
                    (Spaced-earlier s.last_send_ms c.now (send_times cs after) (omega arith) later)
              | inr sent ↦ rw sent (due, later)
            ]
      ]

  -- A call sends exactly when the client is connected, sending is not suspended, 50 milliseconds
  -- have passed since the last attempt, the local player and the offsets of its fields are known,
  -- and what is read of the player is worth a packet.
  pub send_local_state_iff :
      (mem : Memory) (connected : Bool) (now : ℕ) (s : PlayerSync)
      → let base = get_local_player_base sys mem g in
        (is_empty (send_local_state L sys mem g connected now s).1 ≡ false) ↔ (
          (connected ≡ true)
          × (s.suspended ≡ false)
          × (s.last_send_ms + 50 ≤ now)
          × (base ≢ 0)
          × (player_layout_resolved g ≡ true)
          × (worth_sending (read_local sys mem g base) (record s { last_send_ms = now }) ≡ true))
  unfolding send_local_state send_local packets
  send_local_state_iff mem connected now s = ground arith
