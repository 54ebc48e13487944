-- ===== src/Atmosphere/Budget.antt =====
-- The budget of effects: its bound on those at once, and its gap between two.
use ollama_queue.Prelude.{
  ℕ, ◌+◌, ◌≤◌, ◌≡◌, String, true, false, List, [], ◌∷◌, if◌then◌else◌, arith, All, All-map, Pairs,
  inl, inr, ◌⊎◌,
}
use ollama_queue.Atmosphere.{Effects, release, can_fire_effect}

pub data Event : Type 0 where
  fire : String → ℕ → Event  -- a request, with the time
  finish : String → Event  -- a clean-up

abbrev pub step : Effects → Event → Effects
step e (fire id now) = (can_fire_effect id now e).0
step e (finish id) = release id e

abbrev pub run : Effects → List Event → Effects
run e [] = e
run e (x ∷ xs) = run (step e x) xs

-- The times of the requests that were granted.
pub granted : Effects → List Event → List ℕ
granted e [] = []
granted e (fire id now ∷ xs) =
    let rest = granted (can_fire_effect id now e).0 xs in
    if (can_fire_effect id now e).1 then now ∷ rest else rest
granted e (finish id ∷ xs) = granted (release id e) xs

fire_cases :
    (id : String) (now : ℕ) (e : Effects)
    → (((can_fire_effect id now e).1 ≡ true)
        × ((can_fire_effect id now e).0.last_effect ≡ now)
        × (e.last_effect + 300 ≤ now))
      ⊎ (((can_fire_effect id now e).1 ≡ false) × ((can_fire_effect id now e).0 ≡ e))
unfolding can_fire_effect
fire_cases id now e = ground arith

after_last : (e : Effects) (xs : List Event) → All (λ t. e.last_effect + 300 ≤ t) (granted e xs)
unfolding granted release
after_last e [] = tt
after_last e (fire id now ∷ xs) = elim (fire_cases id now e) [
  | inl (g, l, b) ↦
      rw g
        (b, All-map (λ t h. omega (arith, h, l, b)) _ (after_last (can_fire_effect id now e).0 xs))
  | inr (g, s) ↦ rw g (All-map (λ t h. rw s at h) _ (after_last (can_fire_effect id now e).0 xs))
]
after_last e (finish id ∷ xs) = after_last (release id e) xs

-- Of two granted requests the later one comes at least 300 ms after the earlier one, also if the
-- clock is set back in between.
pub granted_spaced : (e : Effects) (xs : List Event) → Pairs (λ t u. t + 300 ≤ u) (granted e xs)
unfolding granted
granted_spaced e [] = tt
granted_spaced e (fire id now ∷ xs) = elim (fire_cases id now e) [
  | inl (g, l, b) ↦ rw g (
    All-map (λ t h. omega (arith, h, l)) _ (after_last (can_fire_effect id now e).0 xs),
    granted_spaced (can_fire_effect id now e).0 xs,
  )
  | inr (g, s) ↦ rw g (granted_spaced (can_fire_effect id now e).0 xs)
]
granted_spaced e (finish id ∷ xs) = granted_spaced (release id e) xs
