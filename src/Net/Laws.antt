-- ===== src/Net/Laws.antt =====
-- Actions that keep a predicate of the signals, built from such actions.
use ollama_queue.Prelude.{◌≡◌, refl, Option, none, some, List, [], ◌∷◌, ◌++◌}
use ollama_queue.Net.{
  Json, Answer, accepted, refused, Result, ok, failed, World, Action, ◌>>=◌, assign, deliver, fetch,
  parsed, json_of, require, require_detail, if_ok, load, next, Body,
}

module _ {S R : Type 0} (P : S → Type 0) where
  abbrev pub Keeps : {A : Type 0} → Action S R A → Type 0
  Keeps m = (w : World S R) → P w.store → P (m w).0.store

  pub next-Keeps :
      {A B : Type 0} (w : World S R) (r : Result A) (f : A → Action S R B)
      → P w.store
      → ((a : A) → Keeps (f a))
      → P (next w r f).0.store
  next-Keeps w (ok a) f p k = k a w p
  next-Keeps w (failed e) f p k = p

  pub >>=-Keeps :
      {A B : Type 0} (m : Action S R A) (f : A → Action S R B)
      → Keeps m
      → ((a : A) → Keeps (f a))
      → Keeps (m >>= f)
  >>=-Keeps m f km kf w p = next-Keeps (m w).0 (m w).1 f (km w p) kf

  deliver-Keeps :
      (r : R) (w : World S R) (l : List (Option Answer)) → P w.store → P (deliver r w l).0.store
  deliver-Keeps r w [] p = p
  deliver-Keeps r w (none ∷ l) p = p
  deliver-Keeps r w (some a ∷ l) p = p

  pub fetch-Keeps : (r : R) → Keeps (fetch r)
  fetch-Keeps r w p = deliver-Keeps r w w.replies p

  parsed-Keeps : (o : Option Json) → Keeps (parsed o)
  parsed-Keeps none w p = p
  parsed-Keeps (some j) w p = p

  pub json_of-Keeps : (b : Body) → Keeps (json_of b)
  json_of-Keeps b w p = parsed-Keeps b.json w p

  pub require-Keeps : (a : Answer) → Keeps (require a)
  require-Keeps (accepted b) w p = p
  require-Keeps (refused n b) w p = p

  pub require_detail-Keeps : (a : Answer) → Keeps (require_detail a)
  require_detail-Keeps (accepted b) w p = p
  require_detail-Keeps (refused n b) w p = p

  pub ask-Keeps :
      {A B : Type 0} (r : R) (f : Answer → Action S R A) (g : A → Action S R B)
      → ((a : Answer) → Keeps (f a))
      → ((a : A) → Keeps (g a))
      → Keeps (fetch r >>= f >>= g)
  ask-Keeps r f g kf kg = >>=-Keeps (fetch r >>= f) g (>>=-Keeps (fetch r) f (fetch-Keeps r) kf) kg

  pub assign-Keeps : (f : S → S) → ((s : S) → P s → P (f s)) → Keeps (assign f)
  assign-Keeps f k w p = k w.store p

  pub if_ok-Keeps :
      (a : Answer) (set : Json → S → S)
      → ((j : Json) (s : S) → P s → P (set j s))
      → Keeps (if_ok a set)
  if_ok-Keeps (accepted b) set k w p =
      >>=-Keeps (json_of b) (λ j. assign (set j)) (json_of-Keeps b) (λ j v q. k j v.store q) w p
  if_ok-Keeps (refused n b) set k w p = p

  pub load-Keeps :
      (r : R) (set : Json → S → S) → ((j : Json) (s : S) → P s → P (set j s)) → Keeps (load r set)
  load-Keeps r set k w p =
      >>=-Keeps (fetch r) (λ a. if_ok a set) (fetch-Keeps r) (λ a. if_ok-Keeps a set k) w p

-- Reading a body changes nothing.
parsed-world : {S R : Type 0} (o : Option Json) (w : World S R) → (parsed o w).0 ≡ w
parsed-world none w = refl
parsed-world (some j) w = refl

pub json_of-world : {S R : Type 0} (b : Body) (w : World S R) → (json_of b w).0 ≡ w
json_of-world b w = parsed-world b.json w

-- A fetcher of one signal sends its request and nothing else, whatever comes back.
module _ {S R : Type 0} (r : R) (set : Json → S → S) where
  shown-sent :
      (o : Option Json) (w : World S R)
      → (next (parsed o w).0 (parsed o w).1 (λ j. assign (set j))).0.sent ≡ w.sent
  shown-sent none w = refl
  shown-sent (some j) w = refl

  delivered-sent :
      (w : World S R) (l : List (Option Answer))
      → (next (deliver r w l).0 (deliver r w l).1 (λ a. if_ok a set)).0.sent ≡ w.sent ++ r ∷ []
  delivered-sent w [] = refl
  delivered-sent w (none ∷ l) = refl
  delivered-sent w (some (refused n b) ∷ l) = refl
  delivered-sent w (some (accepted b) ∷ l) =
      shown-sent b.json (record w { replies = l; sent = w.sent ++ r ∷ [] })

  pub load-sent : (w : World S R) → (load r set w).0.sent ≡ w.sent ++ r ∷ []
  load-sent w = delivered-sent w w.replies
