-- ===== src/Pages/Results/Complete.antt =====
-- A reader who loads page after page sees all pairs.
use ollama_queue.Prelude.{
  ℕ, zero, suc, ◌+◌, ◌*◌, String, ◌≤◌, ◌<◌, ◌≡◌, refl, sym, ap, ◌∙◌, Bool, true, false, Option,
  none, List, [], ◌∷◌, ◌++◌, ◌==◌, length, length-append, take, drop, take-append-drop, length-take,
  if◌then◌else◌, arith, Bool-cases, inl, inr,
}
use mathlib.Core.List.{append-nil, append_assoc}
use ollama_queue.Pages.Results.{
  page_size, Classification, PageRequest, Table, load_page, show_page, handle_filter_change,
  load_more, answered, filter_by, more, page, table_step,
}

-- What a service with the pairs `rows filter` of each filter answers to a request: the page at its
-- offset, of `limit=20` pairs of its classification.
abbrev pub served : {R : Type 0} → (Option Classification → List R) → PageRequest → List R
served rows (off, filter) = take page_size (drop off (rows filter))

-- The answer to the request that has been under way longest.
abbrev answer_from :
    {R : Type 0} → (Option Classification → List R) → List PageRequest → Table R → Table R
answer_from rows [] t = t
answer_from rows (r ∷ rs) t = table_step t (page 0 (served rows r))

unfoldable pub answer : {R : Type 0} → (Option Classification → List R) → Table R → Table R
answer rows t = answer_from rows t.waiting t

-- A click on “Load more”, and the answer to it.
unfoldable pub read_page : {R : Type 0} → (Option Classification → List R) → Table R → Table R
unfolding answer
read_page rows t = answer rows (table_step t more)

-- At most `n` such clicks, as long as the button is there.
unfoldable pub read_on : {R : Type 0} → (Option Classification → List R) → ℕ → Table R → Table R
unfolding read_page
read_on rows zero t = t
read_on rows (suc n) t =
    let rest = read_on rows n (read_page rows t) in if t.has_more then rest else t

none_below : (n : ℕ) → ¬ (n < page_size * 0)
none_below n = omega arith

not_below : (n : ℕ) → ¬ (suc n < 0)
not_below n = omega arith

module _ {R : Type 0} where
  drop-length : (xs ys : List R) → drop (length xs) (xs ++ ys) ≡ ys
  drop-length [] [] = refl
  drop-length [] (y ∷ ys) = refl
  drop-length (x ∷ xs) ys = drop-length xs ys

  length-drop : (n : ℕ) (xs : List R) → n ≤ length xs → length (drop n xs) + n ≡ length xs
  length-drop n [] h = omega (arith, h)
  length-drop zero (x ∷ xs) h = omega arith
  length-drop (suc n) (x ∷ xs) h = omega (arith, length-drop n xs (omega (arith, h)))

  drop_all : (n : ℕ) (xs : List R) → length xs < n → drop n xs ≡ []
  drop_all n [] h = refl
  drop_all zero (x ∷ xs) h = absurd (not_below (length xs) h)
  drop_all (suc n) (x ∷ xs) h = drop_all n xs (omega (arith, h))

  -- A table that shows these rows, with nothing under way.
  at_rest : List R → Bool → Option Classification → Option String → Table R
  at_rest xs expected filter e = record {
    results = xs;
    offset = length xs;
    has_more = expected;
    loading = false;
    error = e;
    active_filter = filter;
    waiting = [];
  }

  appended : (xs ys : List R) → (if length xs == 0 then ys else xs ++ ys) ≡ xs ++ ys
  appended [] ys = refl
  appended (x ∷ xs) ys = ground arith

  read_page-at_rest :
      (rows : Option Classification → List R) (xs : List R) (filter : Option Classification)
      (e : Option String)
      → read_page rows (at_rest xs true filter e)
        ≡ at_rest
            (xs ++ served rows (length xs, filter))
            (length (served rows (length xs, filter)) == page_size)
            filter
            none
  unfolding read_page answer at_rest table_step load_more load_page answered show_page
  read_page-at_rest rows xs filter e =
      let ys = served rows (length xs, filter) in
      λ i. record {
        results = appended xs ys i;
        offset = sym (length-append xs ys) i;
        has_more = length ys == page_size;
        loading = false;
        error = none;
        active_filter = filter;
        waiting = [];
      }

  read_on-over :
      (rows : Option Classification → List R) (xs : List R) (n : ℕ) (filter : Option Classification)
      (e : Option String)
      → read_on rows n (at_rest xs false filter e) ≡ at_rest xs false filter e
  unfolding read_on at_rest
  read_on-over rows xs zero filter e = refl
  read_on-over rows xs (suc n) filter e = refl

  served_rest :
      (rows : Option Classification → List R) (filter : Option Classification) (xs rest : List R)
      → xs ++ rest ≡ rows filter
      → served rows (length xs, filter) ≡ take page_size rest
  served_rest rows filter xs rest split =
      ap (λ l. take page_size (drop (length xs) l)) (sym split)
      ∙ ap (take page_size) (drop-length xs rest)

  last_page :
      (rest : List R)
      → (length (take page_size rest) == page_size) ≡ false
      → drop page_size rest ≡ []
  last_page rest h = drop_all page_size rest (ground (arith, length-take page_size rest))

  full_page :
      (rest : List R)
      → (length (take page_size rest) == page_size) ≡ true
      → length (drop page_size rest) + page_size ≡ length rest
  full_page rest h = length-drop page_size rest (ground (arith, length-take page_size rest))

  split_on :
      (rows xs rest : List R)
      → xs ++ rest ≡ rows
      → (xs ++ take page_size rest) ++ drop page_size rest ≡ rows
  split_on rows xs rest split =
      append_assoc xs (take page_size rest) (drop page_size rest)
      ∙ ap (λ l. xs ++ l) (take-append-drop page_size rest)
      ∙ split

  all_shown :
      (rows xs rest : List R)
      → xs ++ rest ≡ rows
      → (length (take page_size rest) == page_size) ≡ false
      → xs ++ take page_size rest ≡ rows
  all_shown rows xs rest split h =
      sym (append-nil (xs ++ take page_size rest))
      ∙ ap (λ l. (xs ++ take page_size rest) ++ l) (sym (last_page rest h))
      ∙ split_on rows xs rest split

  read_on_from :
      (rows : Option Classification → List R) (n : ℕ) (xs rest : List R)
      (filter : Option Classification) (e : Option String)
      → xs ++ rest ≡ rows filter
      → length rest < page_size * n
      → read_on rows n (at_rest xs true filter e) ≡ at_rest (rows filter) false filter none
  unfolding read_on at_rest
  read_on_from rows zero xs rest filter e split short = absurd (none_below (length rest) short)
  read_on_from rows (suc n) xs rest filter e split short =
      let ys = take page_size rest in
      let page : read_page rows (at_rest xs true filter e)
          ≡ at_rest (xs ++ ys) (length ys == page_size) filter none =
        read_page-at_rest rows xs filter e
        ∙ ap (λ l. at_rest (xs ++ l) (length l == page_size) filter none)
            (served_rest rows filter xs rest split) in
      ap (read_on rows n) page ∙ elim (Bool-cases (length ys == page_size)) [
        | inl h ↦
            ap (λ b. read_on rows n (at_rest (xs ++ ys) b filter none)) h
            ∙ read_on_from rows n (xs ++ ys) (drop page_size rest) filter none
                (split_on (rows filter) xs rest split) (omega (arith, full_page rest h, short))
        | inr h ↦
            ap (λ b. read_on rows n (at_rest (xs ++ ys) b filter none)) h
            ∙ read_on-over rows (xs ++ ys) n filter none
            ∙ ap (λ l. at_rest l false filter none) (all_shown (rows filter) xs rest split h)
      ]

  -- The first page of a filter is that of a table which shows nothing yet.
  first_page :
      (rows : Option Classification → List R) (filter : Option Classification) (t : Table R)
      → t.waiting ≡ []
      → answer rows (table_step t (filter_by filter)) ≡ read_page rows (at_rest [] true filter none)
  unfolding table_step handle_filter_change load_page answered show_page read_page answer at_rest
      load_more
  first_page rows filter t quiet =
      ap
        (λ w. answer_from rows (w ++ (0, filter) ∷ []) (record t {
          results = [];
          offset = 0;
          has_more = true;
          loading = true;
          error = none;
          active_filter = filter;
          waiting = w ++ (0, filter) ∷ [];
        }))
        quiet

-- The service answers each request by its offset and its filter. Choosing a filter while nothing is
-- under way, and then clicking “Load more” as long as the button is there, each time after the
-- answer to the click before, ends: `n` clicks are enough when the filter has fewer than
-- `20 * n + 20` pairs. The table then shows all pairs that the service has for the filter in their
-- order, expects no more and loads nothing.
pub reading_ends :
    {R : Type 0} (rows : Option Classification → List R) (filter : Option Classification)
    (t : Table R) (n : ℕ)
    → t.waiting ≡ []
    → length (rows filter) < page_size * n + page_size
    → let s = read_on rows n (answer rows (table_step t (filter_by filter))) in
      (s.results ≡ rows filter)
      × (s.has_more ≡ false)
      × (s.loading ≡ false)
      × (s.active_filter ≡ filter)
unfolding at_rest read_page read_on
reading_ends rows filter t n quiet short =
    let end : read_on rows n (answer rows (table_step t (filter_by filter)))
        ≡ at_rest (rows filter) false filter none =
      ap (read_on rows n) (first_page rows filter t quiet)
      ∙ read_on_from rows (suc n) [] (rows filter) filter none refl (omega (arith, short)) in
    (
      ap (λ s. s.results) end,
      ap (λ s. s.has_more) end,
      ap (λ s. s.loading) end,
      ap (λ s. s.active_filter) end,
    )
