-- ===== src/Jobs/Again.antt =====
-- Running a job again: which requests are sent, and what of the old job is in the new one.
use ollama_queue.Prelude.{◌≡◌, refl, ap, String, Option, none, some, List, [], ◌∷◌, ◌++◌}
use ollama_queue.Net.{Json, number, object, Members, member_of, Answer, accepted, refused, World}
use ollama_queue.Net.Laws.{json_of-world}
use ollama_queue.Jobs.{
  Request, get_job, post_job, Signals, property, or_default, present, with_member, copy_of,
  copy_job, require_or, retry_job,
}

copy-model :
    (source model prompt priority timeout : Option Json)
    → member_of "model" (copy_of source model prompt priority timeout) ≡ model
unfolding copy_of with_member member_of
copy-model source (some m) prompt priority timeout = refl
copy-model source none (some p) priority timeout = refl
copy-model source none none priority timeout = refl

copy-prompt :
    (source model prompt priority timeout : Option Json)
    → member_of "prompt" (copy_of source model prompt priority timeout) ≡ prompt
unfolding copy_of with_member member_of
copy-prompt source (some m) (some p) priority timeout = refl
copy-prompt source none (some p) priority timeout = refl
copy-prompt source (some m) none priority timeout = refl
copy-prompt source none none priority timeout = refl

copy-priority :
    (source model prompt priority timeout : Option Json)
    → member_of "priority" (copy_of source model prompt priority timeout)
      ≡ some (or_default (present priority) (number "5"))
unfolding copy_of with_member member_of
copy-priority source (some m) (some p) priority timeout = refl
copy-priority source none (some p) priority timeout = refl
copy-priority source (some m) none priority timeout = refl
copy-priority source none none priority timeout = refl

-- The job `ms` as the service gave it, and the reply `a` to the second request.
abbrev pub two_replies :
    Signals
    → String
    → Members
    → Option Answer
    → List (Option Answer)
    → List Request
    → World Signals Request
two_replies s raw ms a rest sent = record {
  store = s;
  replies = some (accepted (record { raw = raw; json = some (object ms) })) ∷ a ∷ rest;
  sent = sent;
}

abbrev pub copy_from : Members → Members
copy_from ms =
    copy_of (member_of "source" ms) (member_of "model" ms) (member_of "prompt" ms)
      (member_of "priority" ms) (member_of "timeout" ms)

retry_job-sent :
    (id : Json) (s : Signals) (raw : String) (ms : Members) (a : Option Answer)
    (rest : List (Option Answer)) (sent : List Request)
    → (retry_job id (two_replies s raw ms a rest sent)).0 ≡ record {
      store = s;
      replies = rest;
      sent = (sent ++ get_job id ∷ []) ++ post_job (copy_from ms) ∷ [];
    }
unfolding retry_job copy_job property require_or
retry_job-sent id s raw ms none rest sent = refl
retry_job-sent id s raw ms (some (refused n b)) rest sent = refl
retry_job-sent id s raw ms (some (accepted b)) rest sent = json_of-world b _

-- To run a job again asks for the job and sends one new job, whatever comes back then; the new job
-- has the model and the prompt of the old one, its priority or else 5, and no signal changes.
pub retry_job_copies :
    (id : Json) (s : Signals) (raw : String) (ms : Members) (a : Option Answer)
    (rest : List (Option Answer)) (sent : List Request)
    → let after = (retry_job id (two_replies s raw ms a rest sent)).0 in
      (copy : Members) × (after.sent ≡ (sent ++ get_job id ∷ []) ++ post_job copy ∷ [])
      × (after.store ≡ s)
      × (member_of "model" copy ≡ member_of "model" ms)
      × (member_of "prompt" copy ≡ member_of "prompt" ms)
      × (member_of "priority" copy
          ≡ some (or_default (present (member_of "priority" ms)) (number "5")))
retry_job_copies id s raw ms a rest sent =
    let e = retry_job-sent id s raw ms a rest sent in
    (
      copy_from ms,
      ap (λ w. w.sent) e,
      ap (λ w. w.store) e,
      copy-model _ _ _ _ _,
      copy-prompt _ _ _ _ _,
      copy-priority (member_of "source" ms) _ _ _ (member_of "timeout" ms),
    )
