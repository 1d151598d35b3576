-- ===== src/Game/Pattern/Scan.antt =====
-- `scan_pattern` finds the first match.
use crimson_desert_online_mo.Common.{
  ℕ, zero, suc, ◌+◌, ◌-◌, ◌≤◌, ◌<◌, ◌≡◌, refl, subst, ◌≢◌, ◌⊎◌, inl, inr, ◌↔◌, Bool, true, false,
  List, [], ◌∷◌, ◌==◌, ltb, length, arith, Bool-cases,
}
use crimson_desert_online_mo.Game.Memory.{Memory}
use crimson_desert_online_mo.Game.Pattern.{
  CompiledPattern, ModuleRange, matches_at, scan_from, scan_pattern,
}

-- Every significant byte of the pattern stands in memory from the address on.
abbrev pub Matches : Memory → ℕ → List ℕ → List Bool → Type 0
Matches mem addr [] mask = Unit {0}
Matches mem addr (b ∷ bs) [] = Unit {0}
Matches mem addr (b ∷ bs) (m ∷ ms) = ((m ≡ false) ⊎ (mem addr ≡ b)) × Matches mem (addr + 1) bs ms

matches_at-Matches :
    (mem : Memory) (addr : ℕ) (bs : List ℕ) (ms : List Bool)
    → (matches_at mem addr bs ms ≡ true) ↔ Matches mem addr bs ms
unfolding matches_at
matches_at-Matches mem addr [] ms = ((λ _. tt), (λ _. refl))
matches_at-Matches mem addr (b ∷ bs) [] = ((λ _. tt), (λ _. refl))
matches_at-Matches mem addr (b ∷ bs) (m ∷ ms) =
    let ih = matches_at-Matches mem (addr + 1) bs ms in ground (arith, ih.0, ih.1)

abbrev pub MatchesAt : Memory → ModuleRange → CompiledPattern → ℕ → Type 0
MatchesAt mem range pat i = Matches mem (range.base + i) pat.bytes pat.mask

-- The answer to a scan of the indices from `i` below `n`.
abbrev pub First : Memory → ModuleRange → CompiledPattern → ℕ → ℕ → ℕ → Type 0
First mem range pat i n found =
    ((found ≡ 0) × ((k : ℕ) → i ≤ k → k < n → ¬ MatchesAt mem range pat k))
    ⊎ ((k : ℕ) × (found ≡ range.base + k)
        × (i ≤ k)
        × (k < n)
        × MatchesAt mem range pat k
        × ((j : ℕ) → i ≤ j → j < k → ¬ MatchesAt mem range pat j))

eq_or_later : (i k : ℕ) → i ≤ k → (k ≡ i) ⊎ (i + 1 ≤ k)
eq_or_later i k h = grind arith

-- The index before the others, when it does not match.
First-earlier :
    (mem : Memory) (range : ModuleRange) (pat : CompiledPattern) (i n found : ℕ)
    → ¬ MatchesAt mem range pat i
    → First mem range pat (i + 1) n found
    → First mem range pat i n found
First-earlier mem range pat i n found miss (inl (e, none_here)) = inl (
  e,
  λ k low high m. elim (eq_or_later i k low) [
    | inl same ↦ miss (subst (MatchesAt mem range pat) same m)
    | inr later ↦ none_here k later high m
  ],
)
First-earlier mem range pat i n found miss (inr (k, e, low, high, m, none_before)) = inr (
  k,
  e,
  omega arith,
  high,
  m,
  λ j lo hi mj. elim (eq_or_later i j lo) [
    | inl same ↦ miss (subst (MatchesAt mem range pat) same mj)
    | inr later ↦ none_before j later hi mj
  ],
)

scan_from-First :
    (mem : Memory) (range : ModuleRange) (pat : CompiledPattern) (rounds i : ℕ)
    → First mem range pat i (i + rounds) (scan_from mem range pat rounds i)
unfolding scan_from
scan_from-First mem range pat zero i = inl (refl, (λ k low high. absurd (omega arith)))
scan_from-First mem range pat (suc rounds) i =
    let exact = matches_at-Matches mem (range.base + i) pat.bytes pat.mask in
    elim (Bool-cases (matches_at mem (range.base + i) pat.bytes pat.mask)) [
      | inl hit ↦
          rw hit
            (inr (i, refl, omega arith, omega arith, exact.0 hit, λ j lo hi. absurd (omega arith)))
      | inr miss ↦
          let e : i + suc rounds ≡ i + 1 + rounds = omega arith in
          rw (miss, e)
            (First-earlier mem range pat i _ _ (λ m. cc (exact.1 m, miss))
              (scan_from-First mem range pat rounds (i + 1)))
    ]

-- In a module that is loaded, the scan for a pattern that is not empty answers the first address at
-- which the pattern matches inside the module, and 0 exactly where there is none.
pub scan_pattern-First :
    (mem : Memory) (range : ModuleRange) (pat : CompiledPattern)
    → range.base ≢ 0
    → 0 < length pat.bytes
    → First mem range pat 0 (range.size + 1 - length pat.bytes) (scan_pattern mem range pat)
unfolding scan_pattern
scan_pattern-First mem range pat loaded filled =
    elim (Bool-cases (ltb range.size (length pat.bytes))) [
      | inl short ↦
          let null : (range.base == 0) ≡ false = ground arith in
          let empty : (length pat.bytes == 0) ≡ false = ground arith in
          rw (null, empty, short) (inl (refl, λ k low high. absurd (ground arith)))
      | inr long ↦
          let null : (range.base == 0) ≡ false = ground arith in
          let empty : (length pat.bytes == 0) ≡ false = ground arith in
          let n : range.size + 1 - length pat.bytes ≡ 0 + (range.size - length pat.bytes + 1) =
            ground arith in
          rw (null, empty, long, n)
            (scan_from-First mem range pat (range.size - length pat.bytes + 1) 0)
    ]
