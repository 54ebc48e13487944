-- ===== src/Plan/Due.antt =====
-- groupNextDue: the time that it gives, against the jobs of the group.
use ollama_queue.Prelude.{
  ℕ, ◌≤◌, ◌≡◌, refl, true, false, ◌&&◌, ◌⊎◌, inl, inr, Option, none, some, List, [], ◌∷◌, arith,
  ltb, ◌==◌, any, All, Bool-cases,
}
use ollama_queue.Plan.{Job, earlier, due_from, group_next_due}

abbrev AtMost : Option ℕ → ℕ → Type 0
AtMost none n = ⊥
AtMost (some m) n = m ≤ n

-- No enabled job is due before the time, and there is none at all without a time.
abbrev pub IsBound : Option ℕ → List Job → Type 0
IsBound none js = All (λ j. j.enabled ≡ false) js
IsBound (some m) js = All (λ j. j.enabled ≡ true → m ≤ j.next_run) js

-- The time is that of an enabled job.
abbrev pub IsReached : Option ℕ → List Job → Type 0
IsReached none js = Unit {0}
IsReached (some m) js = any (λ j. j.enabled && j.next_run == m) js ≡ true

earlier-AtMost_old : (j : Job) (m : ℕ) → AtMost (earlier j (some m)) m
unfolding earlier
earlier-AtMost_old j m = elim (Bool-cases (j.enabled && ltb j.next_run m)) [
  | inl h ↦ rw h (ground arith)
  | inr h ↦ rw h (omega arith)
]

earlier-AtMost_new : (j : Job) (o : Option ℕ) → j.enabled ≡ true → AtMost (earlier j o) j.next_run
unfolding earlier
earlier-AtMost_new j none h = rw h (omega arith)
earlier-AtMost_new j (some m) h = elim (Bool-cases (ltb j.next_run m)) [
  | inl k ↦ rw (h, k) (omega arith)
  | inr k ↦ rw (h, k) (ground arith)
]

AtMost-trans : (o : Option ℕ) (m n : ℕ) → AtMost o m → m ≤ n → AtMost o n
AtMost-trans none m n h k = h
AtMost-trans (some l) m n h k = omega arith

due_from-AtMost : (o : Option ℕ) (m : ℕ) (js : List Job) → AtMost o m → AtMost (due_from o js) m
unfolding due_from
due_from-AtMost o m [] h = h
due_from-AtMost none m (j ∷ js) h = absurd h
due_from-AtMost (some l) m (j ∷ js) h =
    due_from-AtMost (earlier j (some l)) m js
      (AtMost-trans (earlier j (some l)) l m (earlier-AtMost_old j l) h)

due_from-below :
    (o : Option ℕ) (js : List Job)
    → All (λ j. j.enabled ≡ true → AtMost (due_from o js) j.next_run) js
unfolding due_from
due_from-below o [] = tt
due_from-below o (j ∷ js) = (
  λ h. due_from-AtMost (earlier j o) j.next_run js (earlier-AtMost_new j o h),
  due_from-below (earlier j o) js,
)

earlier-reached :
    (j : Job) (o : Option ℕ) (m : ℕ)
    → earlier j o ≡ some m
    → (o ≡ some m) ⊎ ((j.enabled && j.next_run == m) ≡ true)
unfolding earlier
earlier-reached j none m h = ground arith
earlier-reached j (some l) m h = ground arith

due_from-reached :
    (o : Option ℕ) (js : List Job) (m : ℕ)
    → due_from o js ≡ some m
    → (o ≡ some m) ⊎ (any (λ j. j.enabled && j.next_run == m) js ≡ true)
unfolding due_from
due_from-reached o [] m h = inl h
due_from-reached o (j ∷ js) m h = elim (due_from-reached (earlier j o) js m h) [
  | inl e ↦ elim (earlier-reached j o m e) [ inl k ↦ inl k | inr k ↦ inr (rw k refl) ]
  | inr e ↦ inr (ground arith)
]

no_earlier :
    (o : Option ℕ) (js : List Job)
    → All (λ j. j.enabled ≡ true → AtMost o j.next_run) js
    → IsBound o js
no_earlier none [] h = tt
no_earlier none (j ∷ js) h =
    (elim (Bool-cases j.enabled) [ inl e ↦ absurd (h.0 e) | inr e ↦ e ], no_earlier none js h.1)
no_earlier (some m) js h = h

found_at : (js : List Job) (o : Option ℕ) → due_from none js ≡ o → IsReached o js
found_at js none h = tt
found_at js (some m) h = elim (due_from-reached none js m h) [ inl e ↦ cc | inr e ↦ e ]

-- The next due time of a group is that of one of its enabled jobs, and no enabled job is due before
-- it; there is none exactly where the group has no enabled job.
pub group_next_due_lem :
    (js : List Job) → IsBound (group_next_due js) js × IsReached (group_next_due js) js
unfolding group_next_due
group_next_due_lem js =
    (no_earlier (due_from none js) js (due_from-below none js), found_at js (due_from none js) refl)
