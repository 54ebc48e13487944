-- ===== src/Jobs/Tests.antt =====
-- A killed job is run again, and the second request fails.
use ollama_queue.Prelude.{◌≡◌, none, some, [], ◌∷◌}
use ollama_queue.Net.{null, number, text, Members, done, member, member_of, World}
use ollama_queue.Jobs.{Request, get_job, post_job, Signals, or_default, present, retry_job}
use ollama_queue.Jobs.Again.{two_replies, retry_job_copies}

abbrev nothing : Signals
nothing = record { status = null; queue = null; models = null; model_catalog = null }

abbrev killed : Members
killed = member "model" (text "qwen3:8b") (member "prompt" (text "sum up") done)

abbrev after : World Signals Request
after = (retry_job (number "12") (two_replies nothing "" killed none [] [])).0

killed_again :
    (copy : Members) × (after.sent ≡ get_job (number "12") ∷ post_job copy ∷ [])
    × (after.store ≡ nothing)
    × (member_of "model" copy ≡ member_of "model" killed)
    × (member_of "prompt" copy ≡ member_of "prompt" killed)
    × (member_of "priority" copy
        ≡ some (or_default (present (member_of "priority" killed)) (number "5")))
killed_again = retry_job_copies (number "12") nothing "" killed none [] []
