-- ===== src/Forms/Submit/Sent.antt =====
-- What the dialog for one job sends, whatever is typed and clicked, and the timer that closes it.
use ollama_queue.Prelude.{
  ℕ, zero, suc, ◌≤◌, ◌≡◌, ◌≢◌, refl, ap, ◌∙◌, Bool, true, false, Option, none, some, List, [], ◌∷◌,
  ◌++◌, if◌then◌else◌, arith, All, All-snoc,
}
use ollama_queue.Text.{trim}
use ollama_queue.Forms.{
  Num, nat, below_zero, fraction, nan, positive, is_some, ne-nil_of, in_range_of,
}
use ollama_queue.Forms.Submit.{
  Complaint, Defaults, Dialog, Event, Fields, SubmitBody, blank, body_of, check_submit, close_after,
  close_by, handle_cancel, handle_submit, open_dialog, reset_form, run, step, submitted, validate,
  open_it, cancel, submit, edit, settings, reply, timer,
}

-- A body that the service can take.
pub record IsValid (b : SubmitBody) : Type 0 where
  pub has_command : b.command ≢ []
  pub has_source : b.source ≢ []
  pub in_range : (n : ℕ) × (b.priority ≡ nat n) × (1 ≤ n) × (n ≤ 10)
  pub lasts : (n : ℕ) × (b.timeout ≡ nat n) × (1 ≤ n)

lasts_of : (t : Num) → is_some (positive t) ≡ true → (n : ℕ) × (t ≡ nat n) × (1 ≤ n)
unfolding positive
lasts_of (nat zero) h = cc
lasts_of (nat (suc n)) h = (suc n, refl, omega arith)
lasts_of (below_zero n) h = cc
lasts_of (fraction n b) h = cc
lasts_of nan h = cc

body_of-IsValid : (f : Fields) → validate f ≡ none → IsValid (body_of f)
unfolding validate body_of
body_of-IsValid f h = record {
  has_command = ne-nil_of (trim f.command) (ground arith);
  has_source = ne-nil_of (trim f.source) (ground arith);
  in_range = in_range_of f.priority (ground arith);
  lasts = lasts_of f.timeout (ground arith);
}

if_sent-Valid :
    (x : Bool) (d e : Dialog)
    → All IsValid d.sent
    → All IsValid e.sent
    → All IsValid (if x then d else e).sent
if_sent-Valid true d e h k = h
if_sent-Valid false d e h k = k

check_submit-Valid :
    (o : Option Complaint) (d : Dialog)
    → (o ≡ none → IsValid (body_of d.fields))
    → All IsValid d.sent
    → All IsValid (check_submit o d).sent
unfolding check_submit
check_submit-Valid (some c) d h a = a
check_submit-Valid none d h a =
    if_sent-Valid d.busy _ _ a (All-snoc IsValid d.sent (body_of d.fields) a (h refl))

submitted-Valid : (ok : Bool) (d : Dialog) → All IsValid d.sent → All IsValid (submitted ok d).sent
unfolding submitted
submitted-Valid true d a = if_sent-Valid d.busy _ d a a
submitted-Valid false d a = a

close_by-Valid :
    (n : ℕ) (s : Defaults) (d : Dialog) → All IsValid d.sent → All IsValid (close_by n s d).sent
unfolding close_by reset_form
close_by-Valid zero s d a = a
close_by-Valid (suc n) s d a = a

step-Valid :
    (s : Defaults) (d : Dialog) (e : Event) → All IsValid d.sent → All IsValid (step s d e).sent
unfolding step open_dialog handle_cancel handle_submit close_after reset_form
step-Valid s d open_it a = a
step-Valid s d cancel a = a
step-Valid s d submit a = check_submit-Valid (validate d.fields) d (body_of-IsValid d.fields) a
step-Valid s d (edit f) a = a
step-Valid s d (settings t) a = a
step-Valid s d (reply ok) a = submitted-Valid ok d a
step-Valid s d timer a = close_by-Valid d.closing s d a

-- Whatever is typed, clicked and replied, every job that the dialog sends has a command and a
-- source, a priority that is an integer from 1 to 10, and a timeout that is a positive integer, if
-- this held of the jobs sent before.
pub run-Valid :
    (s : Defaults) (es : List Event) (d : Dialog)
    → All IsValid d.sent
    → All IsValid (run s d es).sent
unfolding run
run-Valid s [] d a = a
run-Valid s (e ∷ es) d a = run-Valid s es (step s d e) (step-Valid s d e a)

sending : Dialog → Dialog
unfolding body_of
sending d = record d { error = none; busy = true; sent = d.sent ++ body_of d.fields ∷ [] }

handle_submit-sending :
    (d : Dialog) → validate d.fields ≡ none → d.busy ≡ false → handle_submit d ≡ sending d
unfolding handle_submit check_submit sending
handle_submit-sending d h b =
    ap (λ o. check_submit o d) h ∙ ap (λ x. if x then record d { error = none } else sending d) b

-- A form that passes the check is sent while no job is being sent, and the job is accepted. The
-- timer that this starts is not stopped: when the dialog is cancelled, opened again and filled in
-- before it goes off, the dialog closes and what was typed is gone.
pub late_close :
    (s : Defaults) (d : Dialog) (f : Fields)
    → validate d.fields ≡ none
    → d.busy ≡ false
    → let after = run s d (submit ∷ reply true ∷ cancel ∷ open_it ∷ edit f ∷ timer ∷ []) in
      (after.is_open ≡ false) × (after.fields ≡ blank s)
unfolding run step sending submitted handle_cancel open_dialog close_after close_by reset_form
late_close s d f h b =
    let rest : Dialog → Dialog =
      λ e. run s e (reply true ∷ cancel ∷ open_it ∷ edit f ∷ timer ∷ []) in
    (
      ap (λ e. (rest e).is_open) (handle_submit-sending d h b),
      ap (λ e. (rest e).fields) (handle_submit-sending d h b),
    )
