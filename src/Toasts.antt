-- ===== src/Toasts.antt =====
-- stores/health.js, the toasts: `addToast`, `removeToast` and the timers that dismiss a toast
-- after three seconds.
pub mod Expiry
mod Tests
use ollama_queue.Prelude.{
  ℕ, ◌+◌, String, Bool, true, false, not, ◌||◌, List, [], ◌∷◌, ◌++◌, ◌==◌, if◌then◌else◌, filter,
  any,
}

pub data Kind : Type 0 where
  success error info : Kind

pub record Toast : Type 0 where
  pub id : ℕ
  pub kind : Kind
  pub msg : String
  pub persistent : Bool

pub record Toasts : Type 0 where
  pub toasts : List Toast
  pub last_id : ℕ
  pub expiring : List ℕ  -- the toasts whose timer runs

is_error : Kind → Bool
is_error error = true
is_error success = false
is_error info = false

-- `!(!persistent && type !== 'error')`
unfoldable pub is_sticky : Toast → Bool
unfolding is_error
is_sticky t = t.persistent || is_error t.kind

unfoldable pub add_toast : String → Kind → Bool → Toasts → Toasts × ℕ
add_toast msg kind persistent s =
    let id = s.last_id + 1 in
    let t : Toast = record { id = id; kind = kind; msg = msg; persistent = persistent } in
    (
      record {
        toasts = s.toasts ++ t ∷ [];
        last_id = id;
        expiring = if is_sticky t then s.expiring else s.expiring ++ id ∷ [];
      },
      id,
    )

unfoldable pub remove_toast : ℕ → Toasts → Toasts
remove_toast id s = record s { toasts = filter (λ t. not (t.id == id)) s.toasts }

-- The timer of a toast goes off; one that does not run cannot.
unfoldable pub expire : ℕ → Toasts → Toasts
unfolding remove_toast
expire id s =
    if any (λ k. k == id) s.expiring
    then remove_toast id (record s { expiring = filter (λ k. not (k == id)) s.expiring })
    else s

pub data Event : Type 0 where
  add : String → Kind → Bool → Event
  dismiss : ℕ → Event
  timeout : ℕ → Event

unfoldable pub step : Toasts → Event → Toasts
unfolding add_toast remove_toast expire
step s (add msg kind persistent) = (add_toast msg kind persistent s).0
step s (dismiss id) = remove_toast id s
step s (timeout id) = expire id s

unfoldable pub run : Toasts → List Event → Toasts
run s [] = s
run s (e ∷ es) = run (step s e) es

abbrev pub none_yet : Toasts
none_yet = record { toasts = []; last_id = 0; expiring = [] }
