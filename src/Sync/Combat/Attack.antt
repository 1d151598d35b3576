-- ===== src/Sync/Combat/Attack.antt =====
-- client/src/sync/combat_sync.cpp: from an attack to the damage that the host answers.
use crimson_desert_online_mo.Common.{
  ℕ, zero, suc, ◌-◌, ◌%◌, ◌^◌, ◌<◌, ◌≡◌, refl, if◌then◌else◌, inl, inr, true, some, List, [], ◌∷◌,
  String, ◌==◌, ltb, arith, Bool-cases,
}
use crimson_desert_online_mo.Net.Json.{JsonLib, IsJson, value_by}
use crimson_desert_online_mo.Game.Float.{float_le, zero_f}
use crimson_desert_online_mo.Game.Float.Arith.{float_add, float_mul, float_neg, float_ratio}
use crimson_desert_online_mo.Game.Memory.{Vec3}
use crimson_desert_online_mo.Sync.Player.Wire.{Group, vec_value, value_int, value_float}
use crimson_desert_online_mo.Sync.Player.Wire.Members.{Finite}
use crimson_desert_online_mo.Sync.Combat.{remainder_float, damage_of}

abbrev two_f : ℕ
two_f = 0x40000000

abbrev eighteen_f : ℕ
eighteen_f = 0x41900000

-- A damage that is carried, and lies between 2 and 18.
abbrev Fair : ℕ → Type 0
Fair d = Finite d × (float_le two_f d ≡ true) × (float_le d eighteen_f ≡ true)

abbrev of_remainder : ℕ → ℕ
of_remainder r = float_add 0x41200000 (float_mul r 0x40000000)

of_remainder-Fair : (r : ℕ) → r < 5 → Fair (of_remainder (float_ratio r 1))
unfolding float_ratio float_mul float_add float_le
of_remainder-Fair zero small = ((omega arith, refl), refl, refl)
of_remainder-Fair (suc zero) small = ((omega arith, refl), refl, refl)
of_remainder-Fair (suc (suc zero)) small = ((omega arith, refl), refl, refl)
of_remainder-Fair (suc (suc (suc zero))) small = ((omega arith, refl), refl, refl)
of_remainder-Fair (suc (suc (suc (suc zero)))) small = ((omega arith, refl), refl, refl)
of_remainder-Fair (suc (suc (suc (suc (suc r))))) small = absurd (omega arith)

of_zero-Fair : Fair (of_remainder zero_f)
unfolding float_mul float_add float_le
of_zero-Fair = ((omega arith, refl), refl, refl)

of_negative-Fair : (r : ℕ) → r < 5 → Fair (of_remainder (float_neg (float_ratio r 1)))
unfolding float_ratio float_mul float_add float_le
of_negative-Fair zero small = ((omega arith, refl), refl, refl)
of_negative-Fair (suc zero) small = ((omega arith, refl), refl, refl)
of_negative-Fair (suc (suc zero)) small = ((omega arith, refl), refl, refl)
of_negative-Fair (suc (suc (suc zero))) small = ((omega arith, refl), refl, refl)
of_negative-Fair (suc (suc (suc (suc zero)))) small = ((omega arith, refl), refl, refl)
of_negative-Fair (suc (suc (suc (suc (suc r))))) small = absurd (omega arith)

-- Whatever the animation, the damage of an attack is a number between 2 and 18.
pub damage_of-bounds :
    (anim : ℕ)
    → Finite (damage_of anim)
      × (float_le two_f (damage_of anim) ≡ true)
      × (float_le (damage_of anim) eighteen_f ≡ true)
unfolding damage_of remainder_float
damage_of-bounds anim =
    let r = (2 ^ 32 - anim) % 5 in
    elim (Bool-cases (ltb anim (2 ^ 31))) [
      | inl positive ↦ rw positive (of_remainder-Fair (anim % 5) (omega arith))
      | inr negative ↦ rw negative (elim (Bool-cases (r == 0)) [
        | inl none_left ↦ rw none_left of_zero-Fair
        | inr rest ↦ rw rest (of_negative-Fair r (omega arith))
      ])
    ]

-- The floats 10, 12, 14, 16 and 18, and 10, 8, 6, 4 and 2.
abbrev risen : ℕ → ℕ
risen r =
    if r == 0
    then 0x41200000
    else if r == 1
    then 0x41400000
    else if r == 2
    then 0x41600000
    else if r == 3
    then 0x41800000
    else 0x41900000

abbrev fallen : ℕ → ℕ
fallen r =
    if r == 0
    then 0x41200000
    else if r == 1
    then 0x41000000
    else if r == 2
    then 0x40C00000
    else if r == 3
    then 0x40800000
    else 0x40000000

-- 10 + 2 r, where r is the remainder by 5 with the sign of the animation.
abbrev pub dealt : ℕ → ℕ
dealt anim = if ltb anim (2 ^ 31) then risen (anim % 5) else fallen ((2 ^ 32 - anim) % 5)

module _ (L : JsonLib) (J : IsJson L) where
  open L use {object, text, number, integer, real}

  abbrev attack_group : ℕ → Vec3 → ℕ → List (Group L)
  attack_group anim direction target =
      (
        true,
        ("type", text "attack")
            ∷ ("anim_id", integer anim)
            ∷ ("direction", vec_value L direction)
            ∷ ("targetEntityId", number target)
            ∷ [],
      )
      ∷ []

  abbrev damage_group : String → ℕ → ℕ → ℕ → List (Group L)
  damage_group source target damage anim =
      (
        true,
        ("type", text "damage")
            ∷ ("sourceId", text source)
            ∷ ("targetEntityId", number target)
            ∷ ("damage", real damage)
            ∷ ("anim_id", integer anim)
            ∷ [],
      )
      ∷ []

  -- What a client reads of a damage call.
  pub record IsDamageCall (target damage anim : ℕ) (rpc : L.Value) : Type 0 where
    pub has_type : value_by L L.get_text rpc "type" "" ≡ some "damage"
    pub has_target : value_by L L.get_number rpc "targetEntityId" 0 ≡ some target
    pub has_damage : value_float L rpc "damage" 0 ≡ some damage
    pub has_anim : value_int L rpc "anim_id" 0 ≡ some anim
