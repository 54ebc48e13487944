-- ===== src/Plan/Detail/Late.antt =====
-- What happens between opening a form and the reply to its save.
use ollama_queue.Prelude.{
  ℕ, ◌≡◌, ◌≢◌, refl, ap, ◌∙◌, Bool, true, false, Option, none, some, List, [], ◌∷◌, ◌++◌,
  if◌then◌else◌, arith,
}
use ollama_queue.Plan.Detail.{
  Job, open_form, Updates, changed_flag, updates_of, Panel, send, find_job, show_job, is_id,
  toggle_job_detail, handle_detail_save, save_form, save_job, send_or_close, is_unchanged, get_runs,
  put_job, saved,
}
use ollama_queue.Plan.Detail.Save.{find_job-id, opens}

changed_flag-other : (b old : Bool) → b ≢ old → changed_flag b old ≡ some b
unfolding changed_flag
changed_flag-other true true h = absurd (h refl)
changed_flag-other true false h = refl
changed_flag-other false true h = refl
changed_flag-other false false h = absurd (h refl)

-- The changes with a flag in them are sent.
send_or_close-sent :
    (i : ℕ) (u : Updates) (b : Bool) (p : Panel)
    → u.enabled ≡ some b
    → (send_or_close i u p).sent ≡ p.sent ++ put_job i u ∷ []
unfolding send_or_close is_unchanged
send_or_close-sent i u b p h = ground (arith)

save_job-sent :
    (j k : Job) (p : Panel)
    → j.enabled ≢ k.enabled
    → (save_job (open_form j) (some k) p).sent
      ≡ p.sent ++ put_job j.id (updates_of k (open_form j)) ∷ []
unfolding save_job open_form updates_of
save_job-sent j k p h =
    send_or_close-sent j.id (updates_of k (open_form j)) j.enabled p
      (changed_flag-other j.enabled k.enabled h)

-- A form that was opened on the job `j` and is saved untouched after the list has got `k` for the
-- job, switched on or off elsewhere, sends a change that switches it back.
pub stale_save :
    (i : ℕ) (j k : Job) (js ks : List Job) (p : Panel)
    → is_id i p.expanded ≡ false
    → p.saving ≡ false
    → find_job i js ≡ some j
    → find_job i ks ≡ some k
    → j.enabled ≢ k.enabled
    → (u : Updates) × (u.enabled ≡ some j.enabled)
      × ((handle_detail_save ks (toggle_job_detail i js p)).sent
          ≡ (p.sent ++ get_runs i ∷ []) ++ put_job i u ∷ [])
stale_save i j k js ks p closed idle found now h =
    let q : Panel = record p {
      expanded = some i;
      form = some (open_form j);
      sent = p.sent ++ get_runs i ∷ [];
    } in
    let same = find_job-id i js j found in
    (
      updates_of k (open_form j),
      unfold updates_of open_form in changed_flag-other j.enabled k.enabled h,
      ap (λ r. (handle_detail_save ks r).sent) (opens i j js p closed found)
          ∙ (unfold handle_detail_save save_form open_form in
              ap (λ b. (if b then q else save_job (open_form j) (find_job j.id ks) q).sent) idle
              ∙ ap (λ o. (save_job (open_form j) o q).sent) (ap (λ n. find_job n ks) same ∙ now)
              ∙ save_job-sent j k q h
              ∙ ap (λ n. q.sent ++ put_job n (updates_of k (open_form j)) ∷ []) same),
    )

-- A save that is accepted after another job's panel was opened closes that panel and throws its
-- form away.
pub late_save_closes :
    (i : ℕ) (js : List Job) (p : Panel)
    → is_id i p.expanded ≡ false
    → ((toggle_job_detail i js p).expanded ≡ some i)
      × ((saved true (toggle_job_detail i js p)).expanded ≡ none)
      × ((saved true (toggle_job_detail i js p)).form ≡ none)
unfolding toggle_job_detail saved send
late_save_closes i js p h = (rw h (shown (find_job i js) p), refl, refl)
  where
    shown :
        (o : Option Job) (p : Panel)
        → (show_job o (record p { expanded = some i })).expanded ≡ some i
    shown none p = refl
    shown (some j) p = refl
