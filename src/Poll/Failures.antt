-- ===== src/Poll/Failures.antt =====
-- What a history of status replies leaves behind: the connection banner, the backoff and the slow
-- refresh, each by a description of the history alone.
use native.Mathlib.Nat.{pow-suc}
use mathlib.Core.Path.{ap₂}
use native.Mathlib.Numerals.{add-one}
use ollama_queue.Prelude.{
  ℕ, zero, suc, ◌+◌, ◌*◌, ◌/◌, ◌%◌, ◌^◌, ◌≤◌, ◌≡◌, refl, ◌∙◌, List, [], ◌∷◌, ◌==◌, if◌then◌else◌,
  min, arith, ◌↔◌,
}
use ollama_queue.Poll.{disconnected, State, Reply, body, not_ok, throws, settle, init}

-- After `k` exceptions in a row: doubled each time, and 30 seconds at most.
abbrev pub backoff_after : ℕ → ℕ → ℕ
backoff_after interval zero = interval
backoff_after interval (suc k) = min (interval * 2 ^ suc k) 30000

backoff_after_doubled :
    (interval k : ℕ) → min (backoff_after interval k * 2) 30000 ≡ backoff_after interval (k + 1)
backoff_after_doubled interval zero = omega arith
backoff_after_doubled interval (suc k) = rw (add-one, pow-suc 2 (suc k)) (omega arith)

-- Every twelfth body brings one refresh.
refresh_slow : (n : ℕ) → (n + 1) / 12 ≡ (if (n + 1) % 12 == 0 then n / 12 + 1 else n / 12)
refresh_slow n = ground arith

module _ {D Q : Type 0} where
  abbrev pub settle_all : State D Q → List (Reply D Q) → State D Q
  settle_all s [] = s
  settle_all s (r ∷ rs) = settle_all (settle r s) rs

  -- The exceptions since the last body, where `n` came before; replies that are not ok are passed
  -- over.
  abbrev pub failures_after : ℕ → List (Reply D Q) → ℕ
  failures_after n [] = n
  failures_after n (body d q ∷ rs) = failures_after 0 rs
  failures_after n (not_ok ∷ rs) = failures_after n rs
  failures_after n (throws ∷ rs) = failures_after (n + 1) rs

  abbrev pub bodies : List (Reply D Q) → ℕ
  bodies [] = 0
  bodies (body d q ∷ rs) = bodies rs + 1
  bodies (not_ok ∷ rs) = bodies rs
  bodies (throws ∷ rs) = bodies rs

  -- What holds of the counters between two replies.
  pub record Tracks (s : State D Q) : Type 0 where
    pub banner : (s.connection ≡ disconnected) ↔ (3 ≤ s.failures)
    pub backoff : s.backoff_ms ≡ backoff_after s.poll_interval s.failures
    pub slow : s.refreshes ≡ s.poll_count / 12

  settle-Tracks : (s : State D Q) (r : Reply D Q) → Tracks s → Tracks (settle r s)
  unfolding settle
  settle-Tracks s (body d q) t = record {
    banner = ground arith;
    backoff = refl;
    slow = ground (arith, refresh_slow s.poll_count, t.slow);
  }
  settle-Tracks s not_ok t = t
  settle-Tracks s throws t = record {
    banner = ground (arith, t.banner);
    backoff = rw t.backoff (backoff_after_doubled s.poll_interval s.failures);
    slow = t.slow;
  }

  init-Tracks : (q : Q) → Tracks (init {D = D} q)
  init-Tracks q = record { banner = ground arith; backoff = refl; slow = omega arith }

  settle_all_fields :
      (s : State D Q) (rs : List (Reply D Q))
      → ((settle_all s rs).failures ≡ failures_after s.failures rs)
        × ((settle_all s rs).poll_count ≡ s.poll_count + bodies rs)
        × ((settle_all s rs).poll_interval ≡ s.poll_interval)
  unfolding settle
  settle_all_fields s [] = (refl, omega arith, refl)
  settle_all_fields s (body d q ∷ rs) =
      let (f, c, i) = settle_all_fields (settle (body d q) s) rs in (f, omega (arith, c), i)
  settle_all_fields s (not_ok ∷ rs) = settle_all_fields (settle not_ok s) rs
  settle_all_fields s (throws ∷ rs) = settle_all_fields (settle throws s) rs

  settle_all-Tracks : (s : State D Q) (rs : List (Reply D Q)) → Tracks s → Tracks (settle_all s rs)
  settle_all-Tracks s [] t = t
  settle_all-Tracks s (r ∷ rs) t = settle_all-Tracks (settle r s) rs (settle-Tracks s r t)

  -- After any replies to the status poll: the banner shows exactly if three exceptions came since
  -- the last body, the backoff is the interval doubled once for each of them and capped at 30
  -- seconds, and every twelfth body has brought one slow refresh. Replies that are not ok count
  -- for nothing.
  pub settle_all_lem :
      (q : Q) (rs : List (Reply D Q))
      → let s = settle_all (init {D = D} q) rs in
        let failures = failures_after 0 rs in
        ((s.connection ≡ disconnected) ↔ (3 ≤ failures))
        × (s.backoff_ms ≡ backoff_after 5000 failures)
        × (s.refreshes ≡ bodies rs / 12)
  settle_all_lem q rs =
      let t = settle_all-Tracks (init q) rs (init-Tracks q) in
      let (f, c, i) = settle_all_fields (init q) rs in
      (rw (← f) t.banner, t.backoff ∙ ap₂ backoff_after i f, omega (arith, t.slow, c))
