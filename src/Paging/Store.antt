-- ===== src/Paging/Store.antt =====
-- What a full fetch leaves in the store.
use openim_sdk_core.Prelude.{
  ℕ, zero, suc, ◌+◌, ◌*◌, ◌<◌, ◌≤◌, ◌≡◌, ◌⊎◌, refl, ap, sym, subst, ◌∙◌, false, ◌&&◌, List, [], ◌∷◌,
  ◌++◌, some, String, arith, inl, inr, Bool-cases, ltb, leb, length, take, drop, length-append,
  take-append-drop, drop_of_length-le, length-take,
}
use mathlib.Core.List.{append_assoc, append-nil}
use openim_sdk_core.Prelude.Outcome.{Outcome, done, fail, state_of}
use openim_sdk_core.Paging.{
  Api, show_or, error_of, first_error, insert_each, after_batch, fetch_loop,
  fetch_and_insert_paged_data,
}
use openim_sdk_core.Paging.Whole.{Serves, fewer, joined, show_or-pos, zero_mul, start}

module _ {C W : Type 0} (rows : W → List C) where
  -- A callback stores its items after the others and returns nil, or fails and stores none.
  abbrev pub Stores : List C → W → Outcome W → Type 0
  Stores items w (done w') = rows w' ≡ rows w ++ items
  Stores items w (fail e w') = rows w' ≡ rows w

  -- With no error so far, just these items are stored.
  abbrev pub HasStored : List C → W × List String → Type 0
  HasStored items (w, []) = rows w ≡ items
  HasStored items (w, e ∷ errs) = Unit

  -- A result with no error has stored a front of the server's list, all of it or as many items as
  -- the limit at least; with a limit, which 0 is not, it has stored less than a page more than
  -- that.
  abbrev pub Loaded : ℕ → ℕ → List C → List C → Outcome W → Type 0
  Loaded show max_items base all (fail e w) = Unit
  Loaded show max_items base all (done w) =
      (read : List C) × (rest : List C) × (all ≡ read ++ rest)
      × (rows w ≡ base ++ read)
      × ((rest ≡ []) ⊎ ((1 ≤ max_items) × (max_items ≤ length read)))
      × ((max_items ≡ 0) ⊎ (length read < max_items + show))

  cons-HasStored :
      (items : List C) (w : W) (e : String) (es errs : List String)
      → HasStored items (w, errs ++ (e ∷ es))
  cons-HasStored items w e es [] = tt
  cons-HasStored items w e es (x ∷ errs) = tt

  move : {xs ys : List C} → xs ≡ ys → (l : W × List String) → HasStored xs l → HasStored ys l
  move e l h = subst (λ x. HasStored x l) e h

  module _ (api : Api C) (show : ℕ) (batch_insert : List C → W → Outcome W)
      (insert : C → W → Outcome W) (max_items : ℕ)
      (stores_all : (items : List C) (w : W) → Stores items w (batch_insert items w))
      (stores : (item : C) (w : W) → Stores (item ∷ []) w (insert item w)) where
    one-HasStored :
        (items : List C) (item : C) (w : W) (errs : List String) (r : Outcome W)
        → HasStored items (w, errs)
        → Stores (item ∷ []) w r
        → HasStored (items ++ (item ∷ [])) (state_of r, errs ++ error_of r)
    one-HasStored items item w [] (done w') h k = k ∙ ap (λ x. x ++ (item ∷ [])) h
    one-HasStored items item w (e ∷ errs) (done w') h k = tt
    one-HasStored items item w errs (fail m w') h k =
        cons-HasStored (items ++ (item ∷ [])) w' m [] errs

    insert_each-HasStored :
        (items list : List C) (w : W) (errs : List String)
        → HasStored items (w, errs)
        → HasStored (items ++ list) (insert_each api show batch_insert insert max_items list w errs)
    unfolding insert_each
    insert_each-HasStored items [] w errs h = move (sym (append-nil items)) (w, errs) h
    insert_each-HasStored items (x ∷ list) w errs h = move (append_assoc items (x ∷ []) list) _ (
        insert_each-HasStored (items ++ (x ∷ [])) list (state_of (insert x w))
          (errs ++ error_of (insert x w))
          (one-HasStored items x w errs (insert x w) h (stores x w)))

    same-HasStored :
        (items : List C) (w w' : W) (errs : List String)
        → rows w' ≡ rows w
        → HasStored items (w, errs)
        → HasStored items (w', errs)
    same-HasStored items w w' [] e h = e ∙ h
    same-HasStored items w w' (x ∷ errs) e h = tt

    after_batch-HasStored :
        (items list : List C) (w : W) (errs : List String) (r : Outcome W)
        → HasStored items (w, errs)
        → Stores list w r
        → HasStored (items ++ list) (after_batch api show batch_insert insert max_items list errs r)
    after_batch-HasStored items list w [] (done w') h k = k ∙ ap (λ x. x ++ list) h
    after_batch-HasStored items list w (e ∷ errs) (done w') h k = tt
    after_batch-HasStored items list w errs (fail m w') h k =
        insert_each-HasStored items list w' errs (same-HasStored items w w' errs k h)

    first_error-Loaded :
        (base all read rest : List C) (l : W × List String)
        → all ≡ read ++ rest
        → HasStored (base ++ read) l
        → (rest ≡ []) ⊎ ((1 ≤ max_items) × (max_items ≤ length read))
        → (max_items ≡ 0) ⊎ (length read < max_items + show)
        → Loaded show max_items base all (first_error l)
    first_error-Loaded base all read rest (w, []) split h stop short =
        (read, rest, split, h, stop, short)
    first_error-Loaded base all read rest (w, e ∷ errs) split h stop short = tt

    room : (n total : ℕ) → ltb 0 n && leb n total ≡ false → (n ≡ 0) ⊎ (total < n)
    room zero total h = inl refl
    room (suc n) total h = inr (ground (arith, h))

    within :
        (n total page all : ℕ)
        → (n ≡ 0) ⊎ (total < n)
        → page ≤ show
        → total + page ≡ all
        → (n ≡ 0) ⊎ (all < n + show)
    within n total page all (inl none) le e = inl none
    within n total page all (inr lt) le e = inr (omega (arith, lt, le, e))

    none_left : (d : List C) → length (take show d) < show → drop show d ≡ []
    none_left d h = drop_of_length-le show d (ground (arith, h, length-take show d))

    fetch_loop-Loaded :
        (base all : List C) (serves : Serves api show all) (pos : 1 ≤ show) (fuel i total : ℕ)
        (read : List C) (w : W) (errs : List String)
        → total ≡ length read
        → all ≡ read ++ drop (i * show) all
        → length (drop (i * show) all) < fuel
        → HasStored (base ++ read) (w, errs)
        → (max_items ≡ 0) ⊎ (total < max_items)
        → (r : Outcome W) × (fetch_loop api show batch_insert insert max_items fuel i total w errs
            ≡ some r)
          × Loaded show max_items base all r
    unfolding fetch_loop
    fetch_loop-Loaded base all serves pos zero i total read w errs e split h k free =
        absurd (omega (arith, h))
    fetch_loop-Loaded base all serves pos (suc fuel) i total read w errs e split h k free =
        let d = drop (i * show) all in
        let list = take show d in
        let l =
          after_batch api show batch_insert insert max_items list errs (batch_insert list w) in
        let count : total + length list ≡ length (read ++ list) =
          ap (λ n. n + length list) e ∙ sym (length-append read list) in
        let kept : HasStored (base ++ (read ++ list)) l = move (append_assoc base read list) l (
          after_batch-HasStored (base ++ read) list w errs (batch_insert list w) k
            (stores_all list w)) in
        let split' : all ≡ (read ++ list) ++ drop show d =
          split
          ∙ ap (λ x. read ++ x) (sym (take-append-drop show d))
          ∙ sym (append_assoc read list (drop show d)) in
        let bounded =
          within max_items total (length list) (length (read ++ list)) free
            (ground (arith, length-take show d)) count in
        rw (serves i) (elim (Bool-cases (ltb (length list) show)) [
          | inl short ↦ rw short (
            first_error l,
            refl,
            first_error-Loaded base all (read ++ list) (drop show d) l split' kept
                (inl (none_left d (ground (arith, short)))) bounded,
          )
          | inr full ↦ elim (Bool-cases (ltb 0 max_items && leb max_items (total + length list))) [
            | inl enough ↦
                rw (full, enough)
                  (
                    first_error l,
                    refl,
                    first_error-Loaded base all (read ++ list) (drop show d) l split' kept
                        (inr (ground (arith, enough), ground (arith, enough, count))) bounded,
                  )
            | inr more ↦
                rw (full, more)
                  (fetch_loop-Loaded base all serves pos fuel (i + 1) (total + length list)
                    (read ++ list) l.0 l.1 count
                    (split ∙ sym (joined api show all serves pos i read))
                    (fewer api show all serves pos fuel i h full) kept
                    (room max_items (total + length list) more))
          ]
        ])

first_room : (n : ℕ) → (n ≡ 0) ⊎ (0 < n)
first_room zero = inl refl
first_room (suc n) = inr (omega arith)

-- With enough fuel for one round an element `FetchAndInsertPagedData` ends, and when it returns no
-- error the store has grown by a front of the server's list, in order: all of it, or as many
-- elements as the limit at least, and with a limit less than a page more. Each callback stores its
-- items or fails and stores none, and the server answers each page with its part of the list.
pub fetch_and_insert_paged_data-Loaded :
    {C W : Type 0} (rows : W → List C) (api : Api C) (show_number : ℕ)
    (batch_insert : List C → W → Outcome W) (insert : C → W → Outcome W) (max_items : ℕ)
    (all : List C) (w : W)
    → ((items : List C) (w : W) → Stores rows items w (batch_insert items w))
    → ((item : C) (w : W) → Stores rows (item ∷ []) w (insert item w))
    → Serves api (show_or 50 show_number) all
    → (r : Outcome W) × (fetch_and_insert_paged_data
          (length all + 1)
          api
          show_number
          batch_insert
          insert
          max_items
          w
        ≡ some r)
      × Loaded rows (show_or 50 show_number) max_items (rows w) all r
unfolding fetch_and_insert_paged_data
fetch_and_insert_paged_data-Loaded rows api show_number batch_insert insert max_items all w
      stores_all stores serves =
    let show = show_or 50 show_number in
    fetch_loop-Loaded rows api show batch_insert insert max_items stores_all stores (rows w) all
      serves (show_or-pos 50 show_number (omega arith)) (length all + 1) 0 0 [] w [] refl
      (ap (λ k. drop k all) (sym (zero_mul show))) (start all show) (sym (append-nil (rows w)))
      (first_room max_items)
