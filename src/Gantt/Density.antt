-- ===== src/Gantt/Density.antt =====
-- The density strip, which the source computes twice: as counts and as sets of identifiers.
use ollama_queue.Prelude.{
  ℕ, zero, suc, ◌+◌, ◌≡◌, refl, ◌∙◌, sym, Bool, false, List, [], ◌∷◌, map, arith, Bool-cases, inl,
  inr, length, length-append, count, All, Pairs,
}
use ollama_queue.Gantt.{
  JobId, id_eq, Job, has_id, add_id, tabulate, bucket_count, in_bucket, bump_buckets, add_jobs,
  build_density_buckets, collect_ids, build_bucket_job_ids,
}
use ollama_queue.Gantt.Conflicts.{has_id-add_id}

-- The counts after `add_jobs`, bucket by bucket.
with_counts : (ℕ → Job → Bool) → List Job → ℕ → List ℕ → List ℕ
with_counts test js i [] = []
with_counts test js i (c ∷ cs) = (c + count (test i) js) ∷ with_counts test js (i + 1) cs

with_counts-nil : (test : ℕ → Job → Bool) (i : ℕ) (cs : List ℕ) → with_counts test [] i cs ≡ cs
unfolding with_counts
with_counts-nil test i [] = refl
with_counts-nil test i (c ∷ cs) = ground (arith, with_counts-nil test (i + 1) cs)

with_counts-bump_buckets :
    (test : ℕ → Job → Bool) (j : Job) (js : List Job) (i : ℕ) (cs : List ℕ)
    → with_counts test js i (bump_buckets (λ k. test k j) i cs) ≡ with_counts test (j ∷ js) i cs
unfolding with_counts bump_buckets
with_counts-bump_buckets test j js i [] = refl
with_counts-bump_buckets test j js i (c ∷ cs) =
    ground (arith, with_counts-bump_buckets test j js (i + 1) cs)

add_jobs-with_counts :
    (test : ℕ → Job → Bool) (cs : List ℕ) (js : List Job)
    → add_jobs test cs js ≡ with_counts test js 0 cs
unfolding add_jobs
add_jobs-with_counts test cs [] = sym (with_counts-nil test 0 cs)
add_jobs-with_counts test cs (j ∷ js) =
    add_jobs-with_counts test (bump_buckets (λ k. test k j) 0 cs) js
    ∙ with_counts-bump_buckets test j js 0 cs

with_counts-tabulate :
    (test : ℕ → Job → Bool) (js : List Job) (i n : ℕ)
    → with_counts test js i (tabulate (λ _. 0) i n) ≡ tabulate (λ k. count (test k) js) i n
unfolding with_counts tabulate
with_counts-tabulate test js i zero = refl
with_counts-tabulate test js i (suc n) = ground (arith, with_counts-tabulate test js (i + 1) n)

-- Every bucket counts the jobs that meet it.
pub build_density_buckets_lem :
    (jobs : List Job) (now window : ℕ)
    → build_density_buckets jobs now window
      ≡ tabulate
          (λ i. count (in_bucket now window (bucket_count window) i) jobs)
          0
          (bucket_count window)
unfolding build_density_buckets
build_density_buckets_lem jobs now window =
    add_jobs-with_counts (in_bucket now window (bucket_count window)) _ jobs
    ∙ with_counts-tabulate (in_bucket now window (bucket_count window)) jobs 0 (bucket_count window)

-- No two jobs of the list share an identifier.
abbrev pub HaveDistinctIds : List Job → Type 0
HaveDistinctIds js = Pairs (λ (a : Job) (b : Job). id_eq a.id b.id ≡ false) js

length-collect_ids :
    (test : Job → Bool) (ids : List JobId) (js : List Job)
    → HaveDistinctIds js
    → All (λ j. has_id ids j.id ≡ false) js
    → length (collect_ids test ids js) ≡ length ids + count test js
unfolding collect_ids
length-collect_ids test ids [] d f = omega arith
length-collect_ids test ids (j ∷ js) d f = elim (Bool-cases (test j)) [
  | inl e ↦ rw e (length-collect_ids test (add_id j.id ids) js d.1 (fresh js d.0 f.1) ∙ grown)
  | inr e ↦ rw e (length-collect_ids test ids js d.1 f.1)
]
  where
    fresh :
        (ks : List Job)
        → All (λ b. id_eq j.id b.id ≡ false) ks
        → All (λ b. has_id ids b.id ≡ false) ks
        → All (λ b. has_id (add_id j.id ids) b.id ≡ false) ks
    fresh [] p q = tt
    fresh (k ∷ ks) p q = (rw (has_id-add_id, q.0, p.0) refl, fresh ks p.1 q.1)

    grown : length (add_id j.id ids) + count test js ≡ length ids + suc (count test js)
    grown = unfold add_id in ground (arith, f.0, length-append ids (j.id ∷ []))

length-bucket :
    (jobs : List Job) (f : ℕ → Job → Bool) (i n : ℕ)
    → HaveDistinctIds jobs
    → map length (tabulate (λ k. collect_ids (f k) [] jobs) i n)
      ≡ tabulate (λ k. count (f k) jobs) i n
unfolding tabulate
length-bucket jobs f i zero d = refl
length-bucket jobs f i (suc n) d =
    ground
      (arith, length-bucket jobs f (i + 1) n d, length-collect_ids (f i) [] jobs d (none_yet jobs))
  where
    none_yet : (js : List Job) → All (λ j. has_id [] j.id ≡ false) js
    none_yet [] = tt
    none_yet (j ∷ js) = (unfold has_id in refl, none_yet js)

-- Where no two jobs share an identifier, the height of each bucket is the number of jobs that a
-- click on it highlights.
pub build_density_buckets-build_bucket_job_ids :
    (jobs : List Job) (now window : ℕ)
    → HaveDistinctIds jobs
    → build_density_buckets jobs now window
      ≡ map length (build_bucket_job_ids jobs now window (bucket_count window))
unfolding build_bucket_job_ids
build_density_buckets-build_bucket_job_ids jobs now window d =
    build_density_buckets_lem jobs now window
    ∙ sym
        (length-bucket jobs (in_bucket now window (bucket_count window)) 0 (bucket_count window) d)
