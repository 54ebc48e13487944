-- ===== src/Net.antt =====
-- The stores' functions that talk to the service: `fetch` and its errors as an action on the
-- signals `S`, the replies that are still to come, and the requests `R` that were sent. The replies
-- are given beforehand, the n-th to the n-th request, so that any behaviour of the service is one
-- list of replies.
pub mod Laws
use ollama_queue.Prelude.{
  ℕ, suc, String, Bool, true, false, not, Option, none, some, List, [], ◌∷◌, ◌++◌, str_eq,
  if◌then◌else◌,
}

-- A value of JSON. A number is kept as its literal: no store calculates with one.
mutual
  pub data Json : Type 0 where
    null : Json
    bool : Bool → Json
    number : String → Json
    text : String → Json
    array : Items → Json
    object : Members → Json

  pub data Items : Type 0 where
    end : Items
    item : Json → Items → Items

  pub data Members : Type 0 where
    done : Members
    member : String → Json → Members → Members

unfoldable pub item_count : Items → ℕ
item_count end = 0
item_count (item j js) = suc (item_count js)

-- `entries.length`; no object of the service has a member of that name.
unfoldable pub length_of : Json → Option ℕ
unfolding item_count
length_of (array js) = some (item_count js)
length_of _ = none

unfoldable pub member_of : String → Members → Option Json
member_of k done = none
member_of k (member n j ms) = let rest = member_of k ms in if str_eq n k then some j else rest

-- Whether a member is there and true in a test.
unfoldable pub truthy : Option Json → Option Json
truthy none = none
truthy (some null) = none
truthy (some (bool false)) = none
truthy (some (bool true)) = some (bool true)
truthy (some (number n)) = if str_eq n "0" then none else some (number n)
truthy (some (text s)) = if str_eq s "" then none else some (text s)
truthy (some (array js)) = some (array js)
truthy (some (object ms)) = some (object ms)

-- The body of a reply: its text, and what JSON.parse makes of it (`none`: it throws).
pub record Body : Type 0 where
  pub raw : String
  pub json : Option Json

-- A reply with `ok` (the status is 200 … 299), or without, and its status.
pub data Answer : Type 0 where
  accepted : Body → Answer
  refused : ℕ → Body → Answer

-- What is thrown: by `fetch`, by `json()`, by a member of `null`, or an Error with the status or
-- with what the service says.
pub data Failure : Type 0 where
  network bad_json null_member : Failure
  http : ℕ → Failure
  said : Json → Failure

pub data Result (A : Type 0) : Type 0 where
  ok : A → Result A
  failed : Failure → Result A

pub record World (S R : Type 0) : Type 0 where
  pub store : S
  pub replies : List (Option Answer)  -- `none`: the request does not come through
  pub sent : List R

abbrev pub Action : Type 0 → Type 0 → Type 0 → Type 0
Action S R A = World S R → World S R × Result A

abbrev pub next :
    {S R A B : Type 0} → World S R → Result A → (A → Action S R B) → World S R × Result B
next w (ok a) f = f a w
next w (failed e) f = (w, failed e)

infixl 5 ◌>>=◌ ◌>>◌
abbrev pub ◌>>=◌ : {S R A B : Type 0} → Action S R A → (A → Action S R B) → Action S R B
◌>>=◌ m f w = next (m w).0 (m w).1 f

abbrev pub ◌>>◌ : {S R B : Type 0} → Action S R (Unit {0}) → Action S R B → Action S R B
◌>>◌ m k = m >>= λ _. k

-- `err.detail || `HTTP ${res.status}``
unfoldable pub say : ℕ → Option Json → Failure
say n none = http n
say n (some j) = said j

unfoldable pub complaint : ℕ → Option Json → Failure
unfolding truthy member_of
complaint n none = http n
complaint n (some null) = null_member
complaint n (some (object ms)) = say n (truthy (member_of "detail" ms))
complaint n (some (bool _)) = http n
complaint n (some (number _)) = http n
complaint n (some (text _)) = http n
complaint n (some (array _)) = http n

module _ {S R : Type 0} where
  abbrev pub return : {A : Type 0} → A → Action S R A
  return a w = (w, ok a)

  abbrev pub throw : {A : Type 0} → Failure → Action S R A
  throw e w = (w, failed e)

  abbrev pub assign : (S → S) → Action S R (Unit {0})
  assign f w = (record w { store = f w.store }, ok tt)

  abbrev pub deliver : R → World S R → List (Option Answer) → World S R × Result Answer
  deliver r w [] = (record w { sent = w.sent ++ r ∷ [] }, failed network)
  deliver r w (none ∷ rest) = (record w { replies = rest; sent = w.sent ++ r ∷ [] }, failed network)
  deliver r w (some a ∷ rest) = (record w { replies = rest; sent = w.sent ++ r ∷ [] }, ok a)

  -- `await fetch(…)`: after the given replies nothing comes through.
  abbrev pub fetch : R → Action S R Answer
  fetch r w = deliver r w w.replies

  -- `await res.json()`
  abbrev pub parsed : Option Json → Action S R Json
  parsed none = throw bad_json
  parsed (some j) = return j

  abbrev pub json_of : Body → Action S R Json
  json_of b = parsed b.json

  -- `try { … } catch (e) { console.error(…) }`
  abbrev pub attempt : {A : Type 0} → Action S R A → Action S R (Unit {0})
  attempt m w = ((m w).0, ok tt)

  -- `if (!res.ok) throw new Error(… status …)`
  abbrev pub require : Answer → Action S R Body
  require (accepted b) = return b
  require (refused n b) = throw (http n)

  -- `if (!res.ok) { const err = await res.json().catch(() => ({})); throw new Error(…) }`
  abbrev pub require_detail : Answer → Action S R Body
  require_detail (accepted b) = return b
  require_detail (refused n b) = throw (complaint n b.json)

  -- `if (resp.ok) signal.value = await resp.json()`
  abbrev pub if_ok : Answer → (Json → S → S) → Action S R (Unit {0})
  if_ok (accepted b) set = json_of b >>= λ j. assign (set j)
  if_ok (refused n b) set = return tt

  -- The fetchers of one signal: `try { … if (resp.ok) signal.value = … } catch …`.
  abbrev pub load : R → (Json → S → S) → Action S R (Unit {0})
  load r set = attempt (fetch r >>= λ a. if_ok a set)
