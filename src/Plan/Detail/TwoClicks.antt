-- ===== src/Plan/Detail/TwoClicks.antt =====
-- The delete button: a click asks for confirmation, a second one deletes.
use ollama_queue.Prelude.{
  ℕ, ◌+◌, ◌≤◌, ◌≡◌, Bool, true, false, Option, none, some, List, [], ◌∷◌, ◌==◌, arith,
  if◌then◌else◌, count, count-append,
}
use ollama_queue.Plan.Detail.{
  Request, get_runs, put_job, delete_job, Panel, send, is_id, handle_delete_request,
  handle_delete_cancel, handle_delete_confirm, deleted, close,
}

-- The clicks on the buttons of a row, and the reply to a deletion. The button that confirms is there
-- for the pending job alone.
pub data Click : Type 0 where
  ask confirm : ℕ → Click
  cancel : Click
  reply : Bool → Click

unfoldable pub step : Panel → Click → Panel
step p (ask i) = handle_delete_request i p
step p (confirm i) = if is_id i p.pending_delete then handle_delete_confirm i p else p
step p cancel = handle_delete_cancel p
step p (reply ok) = deleted ok p

unfoldable pub run : Panel → List Click → Panel
run p [] = p
run p (c ∷ cs) = run (step p c) cs

abbrev pub deletes : ℕ → Request → Bool
deletes i (get_runs k) = false
deletes i (put_job k u) = false
deletes i (delete_job k) = k == i

abbrev pub asks : ℕ → Click → Bool
asks i (ask k) = k == i
asks i (confirm k) = false
asks i cancel = false
asks i (reply ok) = false

abbrev pub confirms : ℕ → Click → Bool
confirms i (ask k) = false
confirms i (confirm k) = k == i
confirms i cancel = false
confirms i (reply ok) = false

abbrev pub pending : ℕ → Option ℕ → ℕ
pending i o = if is_id i o then 1 else 0

is_id-eq : (k i : ℕ) (o : Option ℕ) → is_id k o ≡ true → is_id i o ≡ (k == i)
unfolding is_id
is_id-eq k i none h = cc
is_id-eq k i (some m) h = ground arith

-- One click lets at most one request more be sent or be pending.
step-count :
    (i : ℕ) (p : Panel) (c : Click)
    → count (deletes i) (step p c).sent + pending i (step p c).pending_delete
      ≤ count (deletes i) p.sent + pending i p.pending_delete + (if asks i c then 1 else 0)
unfolding step handle_delete_request handle_delete_cancel handle_delete_confirm deleted send is_id
    close
step-count i p (ask k) = ground arith
step-count i p (confirm k) =
    ground
      (arith, count-append (deletes i) p.sent (delete_job k ∷ []), is_id-eq k i p.pending_delete)
step-count i p cancel = ground arith
step-count i p (reply true) = ground arith
step-count i p (reply false) = ground arith

-- Only the click that confirms sends a deletion, and one at most.
step-confirms :
    (i : ℕ) (p : Panel) (c : Click)
    → count (deletes i) (step p c).sent ≤ count (deletes i) p.sent + (if confirms i c then 1 else 0)
unfolding step handle_delete_request handle_delete_cancel handle_delete_confirm deleted send is_id
    close
step-confirms i p (ask k) = ground arith
step-confirms i p (confirm k) =
    ground
      (arith, count-append (deletes i) p.sent (delete_job k ∷ []), is_id-eq k i p.pending_delete)
step-confirms i p cancel = ground arith
step-confirms i p (reply true) = ground arith
step-confirms i p (reply false) = ground arith

run-asks :
    (i : ℕ) (cs : List Click) (p : Panel)
    → count (deletes i) (run p cs).sent + pending i (run p cs).pending_delete
      ≤ count (deletes i) p.sent + pending i p.pending_delete + count (asks i) cs
unfolding run
run-asks i [] p = omega arith
run-asks i (c ∷ cs) p = ground (arith, step-count i p c, run-asks i cs (step p c))

run-confirms :
    (i : ℕ) (cs : List Click) (p : Panel)
    → count (deletes i) (run p cs).sent ≤ count (deletes i) p.sent + count (confirms i) cs
unfolding run
run-confirms i [] p = omega arith
run-confirms i (c ∷ cs) p = ground (arith, step-confirms i p c, run-confirms i cs (step p c))

-- Whatever is clicked and replied, and at each moment of it, a job is deleted at most as often as its
-- delete button was clicked first, where a first click that still waits counts as used, and at most
-- as often as its button that confirms was clicked. A first click that waited before counts too.
pub run-deletes-le :
    (i : ℕ) (cs : List Click) (p : Panel)
    → (count (deletes i) (run p cs).sent + pending i (run p cs).pending_delete
        ≤ count (deletes i) p.sent + pending i p.pending_delete + count (asks i) cs)
      × (count (deletes i) (run p cs).sent ≤ count (deletes i) p.sent + count (confirms i) cs)
run-deletes-le i cs p = (run-asks i cs p, run-confirms i cs p)
