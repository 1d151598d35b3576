-- ===== src/Sync/Cutscene/Pairing.antt =====
-- The starts and ends that are announced.
use crimson_desert_online_mo.Common.{
  ℕ, ◌+◌, ◌≡◌, refl, sym, subst, ◌∙◌, inl, inr, Bool, true, false, not, ◌||◌, List, [], ◌∷◌, ◌==◌,
  ltb, if◌then◌else◌, arith, Bool-cases,
}
use crimson_desert_online_mo.Game.Memory.{Memory, System, is_readable, safe_read}
use crimson_desert_online_mo.Net.Protocol.{PacketType, cutscene_start, cutscene_end}
use crimson_desert_online_mo.Sync.Cutscene.{
  CutsceneSync, State, Event, entering, polled, send, on_cutscene_start, on_cutscene_end,
  transition, hooked_cutscene, poll_flag, poll, step, run,
}

-- Starts and ends take turns, a start first; the index says whether the latest is a start.
pub data Alternates : Bool → List PacketType → Type 0 where
  silent : Alternates false []
  started : {ps : List PacketType} → Alternates false ps → Alternates true (cutscene_start ∷ ps)
  ended : {ps : List PacketType} → Alternates true ps → Alternates false (cutscene_end ∷ ps)

-- The session, the player sync and the packets that were sent agree with `active_`.
pub record IsPaired (s : State) : Type 0 where
  pub session : s.world.cutscene_active ≡ s.sync.active
  pub players : s.world.suspended ≡ s.sync.active
  pub client : s.world.has_client ≡ true
  pub packets : Alternates s.sync.active s.world.sent

-- A handler that is called again does nothing.
start_again : (s : State) → s.sync.active ≡ true → s ≡ on_cutscene_start s
unfolding on_cutscene_start
start_again s on = ground arith

end_again : (s : State) → s.sync.active ≡ false → s ≡ on_cutscene_end s
unfolding on_cutscene_end
end_again s off = ground arith

on_cutscene_start-IsPaired : (s : State) → IsPaired s → IsPaired (on_cutscene_start s)
unfolding on_cutscene_start send
on_cutscene_start-IsPaired s p = elim (Bool-cases s.sync.active) [
  | inl on ↦ subst IsPaired (start_again s on) p
  | inr off ↦
      let before = subst (λ b. Alternates b s.world.sent) off p.packets in
      rw (off, p.client)
        (record { session = refl; players = refl; client = refl; packets = started before })
]

on_cutscene_end-IsPaired : (s : State) → IsPaired s → IsPaired (on_cutscene_end s)
unfolding on_cutscene_end send
on_cutscene_end-IsPaired s p = elim (Bool-cases s.sync.active) [
  | inl on ↦
      let before = subst (λ b. Alternates b s.world.sent) on p.packets in
      rw (on, p.client)
        (record { session = refl; players = refl; client = refl; packets = ended before })
  | inr off ↦ subst IsPaired (end_again s off) p
]

-- What the handlers do not read may change.
keeps :
    {s : State} {c : CutsceneSync}
    → c.active ≡ s.sync.active
    → IsPaired s
    → IsPaired (record s { sync = c })
keeps same p = record {
  session = p.session ∙ sym same;
  players = p.players ∙ sym same;
  client = p.client;
  packets = rw same p.packets;
}

if-IsPaired : (b : Bool) (s t : State) → IsPaired s → IsPaired t → IsPaired (if b then s else t)
if-IsPaired true s t p q = p
if-IsPaired false s t p q = q

transition-IsPaired : (b : Bool) (s : State) → IsPaired s → IsPaired (transition b s)
unfolding transition
transition-IsPaired true s p = on_cutscene_start-IsPaired s p
transition-IsPaired false s p = on_cutscene_end-IsPaired s p

poll_flag-IsPaired :
    (sys : System) (mem : Memory) (b : Bool) (s : State)
    → IsPaired s
    → IsPaired (poll_flag sys mem b s)
unfolding poll_flag
poll_flag-IsPaired sys mem b s p =
    let noted = record s { sync = record s.sync { last_polled_flag = b } } in
    if-IsPaired _ s _ p (transition-IsPaired b noted (keeps refl p))

poll-IsPaired :
    (sys : System) (mem : Memory) (now : ℕ) (s : State) → IsPaired s → IsPaired (poll sys mem now s)
unfolding poll
poll-IsPaired sys mem now s p =
    let noted = record s { sync = record s.sync { last_poll_ms = now } } in
    let addr = s.sync.cinematic_flag_addr in
    let flag = not (safe_read sys mem addr 1 == 0) in
    if-IsPaired (not s.sync.poll_fallback) s _ p (
      if-IsPaired (ltb now (s.sync.last_poll_ms + 100)) s _ p (
        if-IsPaired ((addr == 0) || not (is_readable sys addr 1)) noted _ (keeps refl p)
          (poll_flag-IsPaired sys mem flag noted (keeps refl p))))

step-IsPaired : (e : Event) (s : State) → IsPaired s → IsPaired (step e s)
unfolding step hooked_cutscene
step-IsPaired (entering b) s p = transition-IsPaired b s p
step-IsPaired (polled sys mem now) s p = poll-IsPaired sys mem now s p

-- With a client, and if they agree at the start, whatever the hook and the polls report, in any
-- order, the session, the player sync and the sent packets go on agreeing with `active_`: sending
-- is suspended exactly while a cutscene is active, and CUTSCENE_START and CUTSCENE_END take turns.
pub run-IsPaired : (es : List Event) (s : State) → IsPaired s → IsPaired (run es s)
unfolding run
run-IsPaired [] s p = p
run-IsPaired (e ∷ es) s p = run-IsPaired es (step e s) (step-IsPaired e s p)
