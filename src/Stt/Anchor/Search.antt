-- ===== src/Stt/Anchor/Search.antt =====
-- Go's sort.Search, and the entry that `covering` finds.
use pi_live_captions.Base.{
  ℕ, zero, suc, ◌+◌, ◌-◌, ◌/◌, ◌≤◌, ◌<◌, Bool, true, false, ◌≡◌, ltb, arith, Bool-cases, inl, inr,
}
use pi_live_captions.Stt.Anchor.{search_loop, search_index}

-- Once `p` holds it holds on, up to `n`.
abbrev pub IsMonotone : ℕ → (ℕ → Bool) → Type 0
IsMonotone n p = (i j : ℕ) → i ≤ j → j < n → p i ≡ true → p j ≡ true

-- `k` is the least index below `n` at which `p` holds, or `n`.
pub record IsLeast (n k : ℕ) (p : ℕ → Bool) : Type 0 where
  pub within : k ≤ n
  pub before : (i : ℕ) → i < k → p i ≡ false
  pub holds : k < n → p k ≡ true

before_miss :
    (n : ℕ) (p : ℕ → Bool) → IsMonotone n p → (h k : ℕ) → p h ≡ false → h < n → k ≤ h → p k ≡ false
before_miss n p mono h k miss lt le = elim (Bool-cases (p k)) [
  | inl hit ↦ cc (mono k h le lt hit)
  | inr clear ↦ clear
]

search_loop_lem :
    (fuel i j n : ℕ) (p : ℕ → Bool)
    → IsMonotone n p
    → i ≤ j
    → j ≤ n
    → j - i ≤ fuel
    → ((k : ℕ) → k < i → p k ≡ false)
    → (j < n → p j ≡ true)
    → IsLeast n (search_loop fuel i j p) p
unfolding search_loop
search_loop_lem zero i j n p mono lo hi f below above = record {
  within = omega arith;
  before = below;
  holds = λ h. let e : i ≡ j = omega arith in rw e (above (omega arith));
}
search_loop_lem (suc fuel) i j n p mono lo hi f below above = elim (Bool-cases (ltb i j)) [
  | inr done ↦ rw done (record {
    within = omega arith;
    before = below;
    holds = λ h. let e : i ≡ j = ground arith in rw e (above (omega (arith, e)));
  })
  | inl more ↦ elim (Bool-cases (p ((i + j) / 2))) [
    | inl hit ↦
        rw (more, hit)
          (search_loop_lem fuel i ((i + j) / 2) n p mono (ground arith) (ground arith)
            (ground arith) below (λ h. hit))
    | inr miss ↦
        rw (more, miss)
          (search_loop_lem fuel ((i + j) / 2 + 1) j n p mono (ground arith) hi (ground arith)
            (λ k h. before_miss n p mono ((i + j) / 2) k miss (ground arith) (omega arith)) above)
  ]
]

-- The search finds the least index at which a monotone test holds.
pub search_index_lem : (n : ℕ) (p : ℕ → Bool) → IsMonotone n p → IsLeast n (search_index n p) p
unfolding search_index
search_index_lem n p mono =
    search_loop_lem n 0 n n p mono (omega arith) (omega arith) (omega arith)
      (λ k h. absurd (omega arith)) (λ h. absurd (omega arith))
