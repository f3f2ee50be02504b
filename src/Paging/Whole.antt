-- ===== src/Paging/Whole.antt =====
-- The pages of a list give the list.
use openim_sdk_core.Prelude.{
  ℕ, zero, suc, ◌+◌, ◌*◌, ◌<◌, ◌≤◌, ◌≡◌, refl, ap, sym, ◌∙◌, true, false, ◌&&◌, List, [], ◌∷◌, ◌++◌,
  some, nat_eq, arith, inl, inr, Bool-cases, ltb, leb, length, take, drop, length-take, length-drop,
  length-append, take-append-drop, take_of_length-le, drop-add,
}
use mathlib.Core.List.{append_assoc}
use native.Mathlib.Nat.{add-mul}
use openim_sdk_core.Prelude.Outcome.{ok}
use openim_sdk_core.Paging.{
  Api, show_or, all_loop, cut, max_loop, get_page_all, get_page_all_with_max_num, page_next,
}

-- The server answers each page with its part of a list.
abbrev pub Serves {ℓ} : {C : Type ℓ} → Api C → ℕ → List C → Type ℓ
Serves api show all = (n : ℕ) → api (n + 1) show ≡ ok (take show (drop (n * show) all))

pub zero_mul : (show : ℕ) → 0 * show ≡ 0
zero_mul show = omega arith

pub show_or-pos : (default show : ℕ) → 1 ≤ default → 1 ≤ show_or default show
show_or-pos default show h = ground (arith, h)

module _ {ℓ} {C : Type ℓ} where
  -- The first elements up to a limit, where 0 is none.
  abbrev pub limit : ℕ → List C → List C
  limit zero xs = xs
  limit (suc m) xs = take (suc m) xs

  cut-limit : (max_items : ℕ) (xs : List C) → cut max_items xs ≡ limit max_items xs
  cut-limit zero xs = refl
  cut-limit (suc m) xs = elim (Bool-cases (ltb 0 (suc m) && ltb (suc m) (length xs))) [
    | inl long ↦ rw long
    | inr short ↦ rw short (sym (take_of_length-le (suc m) xs (ground (arith, short))))
  ]

  take-append : (n : ℕ) (xs ys : List C) → n ≤ length xs → take n xs ≡ take n (xs ++ ys)
  take-append zero xs ys h = refl
  take-append (suc n) [] ys h = absurd (omega (arith, h))
  take-append (suc n) (x ∷ xs) ys h = ap (λ r. x ∷ r) (take-append n xs ys (omega (arith, h)))

  limit-append :
      (max_items : ℕ) (xs ys : List C)
      → (1 ≤ max_items) × (max_items ≤ length xs)
      → limit max_items xs ≡ limit max_items (xs ++ ys)
  limit-append zero xs ys h = absurd (omega (arith, h.0))
  limit-append (suc m) xs ys h = take-append (suc m) xs ys h.1

  pub start : (all : List C) (show : ℕ) → length (drop (0 * show) all) < length all + 1
  start all show = omega (arith, length-drop (0 * show) all)

module _ {ℓ} {C : Type ℓ} (api : Api C) (show : ℕ) (all : List C) (serves : Serves api show all)
    (pos : 1 ≤ show) where
  -- A page that is not full is the rest of the list.
  pub short-page : (d : List C) → ltb (length (take show d)) show ≡ true → take show d ≡ d
  short-page d h = take_of_length-le show d (ground (arith, h, length-take show d))

  one_more : (i : ℕ) → (i + 1) * show ≡ i * show + show
  one_more i = omega (arith, add-mul i 1 show)

  next-page : (i : ℕ) → drop ((i + 1) * show) all ≡ drop show (drop (i * show) all)
  next-page i = ap (λ k. drop k all) (one_more i) ∙ drop-add (i * show) show all

  pub fewer :
      (fuel i : ℕ)
      → length (drop (i * show) all) < suc fuel
      → ltb (length (take show (drop (i * show) all))) show ≡ false
      → length (drop ((i + 1) * show) all) < fuel
  fewer fuel i h full = rw (next-page i) (
      ground (
        arith,
        h,
        full,
        pos,
        length-take show (drop (i * show) all),
        length-drop show (drop (i * show) all),
      ))

  pub joined :
      (i : ℕ) (res : List C)
      → (res ++ take show (drop (i * show) all)) ++ drop ((i + 1) * show) all
        ≡ res ++ drop (i * show) all
  joined i res =
      let d = drop (i * show) all in
      ap (λ x. (res ++ take show d) ++ x) (next-page i)
      ∙ append_assoc res (take show d) (drop show d)
      ∙ ap (λ x. res ++ x) (take-append-drop show d)

  all_loop_lem :
      (fuel i : ℕ) (res : List C)
      → length (drop (i * show) all) < fuel
      → all_loop api show fuel i res ≡ some (ok (res ++ drop (i * show) all))
  unfolding all_loop
  all_loop_lem zero i res h = absurd (omega (arith, h))
  all_loop_lem (suc fuel) i res h =
      let d = drop (i * show) all in
      rw (serves i) (elim (Bool-cases (ltb (length (take show d)) show)) [
        | inl short ↦ rw short (ap (λ x. some (ok (res ++ x))) (short-page d short))
        | inr full ↦ rw full (
            all_loop_lem fuel (i + 1) (res ++ take show d) (fewer fuel i h full)
            ∙ ap (λ x. some (ok x)) (joined i res))
      ])

  max_loop_lem :
      (max_items fuel i total : ℕ) (res : List C)
      → total ≡ length res
      → length (drop (i * show) all) < fuel
      → max_loop api show max_items fuel i total res
        ≡ some (ok (limit max_items (res ++ drop (i * show) all)))
  unfolding max_loop
  max_loop_lem max_items zero i total res e h = absurd (omega (arith, h))
  max_loop_lem max_items (suc fuel) i total res e h =
      let d = drop (i * show) all in
      let count : total + length (take show d) ≡ length (res ++ take show d) =
        ap (λ k. k + length (take show d)) e ∙ sym (length-append res (take show d)) in
      rw (serves i) (elim (Bool-cases (ltb (length (take show d)) show)) [
        | inl short ↦ rw short (
            ap (λ x. some (ok x))
              (cut-limit max_items (res ++ take show d)
                ∙ ap (λ x. limit max_items (res ++ x)) (short-page d short)))
        | inr full ↦
            elim (Bool-cases (ltb 0 max_items && leb max_items (total + length (take show d)))) [
              | inl enough ↦
                  rw (full, enough)
                    (ap (λ x. some (ok x))
                      (cut-limit max_items (res ++ take show d)
                        ∙ limit-append max_items (res ++ take show d) (drop show d)
                            (ground (arith, enough, count), ground (arith, enough, count))
                        ∙ ap (limit max_items) (
                            append_assoc res (take show d) (drop show d)
                            ∙ ap (λ x. res ++ x) (take-append-drop show d))))
              | inr more ↦
                  rw (full, more)
                    (max_loop_lem max_items fuel (i + 1) (total + length (take show d))
                        (res ++ take show d) count (fewer fuel i h full)
                      ∙ ap (λ x. some (ok (limit max_items x))) (joined i res))
            ]
      ])

-- With enough fuel for one round an element, `GetPageAll` and `PageNext` return all the elements of
-- a server that answers each page with its part of a list, and `GetPageAllWithMaxNum` the first
-- ones of them up to its limit, or all where that is 0. The size of a page is the request's, or 50
-- (200 in `PageNext`) where that is 0.
pub get_page_all-Whole {ℓ} :
    {C : Type ℓ} (api : Api C) (all : List C) (show_number max_items : ℕ)
    → Serves api (show_or 50 show_number) all
    → Serves api (show_or 200 show_number) all
    → (get_page_all (length all + 1) api show_number ≡ some (ok all))
      × (page_next (length all + 1) api show_number ≡ some (ok all))
      × (get_page_all_with_max_num (length all + 1) api show_number max_items
          ≡ some (ok (limit max_items all)))
unfolding get_page_all page_next get_page_all_with_max_num
get_page_all-Whole api all show_number max_items serves serves' = (
  all_loop_lem api (show_or 50 show_number) all serves (show_or-pos 50 show_number (omega arith))
        (length all + 1) 0 [] (start all (show_or 50 show_number))
      ∙ ap (λ k. some (ok (drop k all))) (zero_mul (show_or 50 show_number)),
  all_loop_lem api (show_or 200 show_number) all serves' (show_or-pos 200 show_number (omega arith))
        (length all + 1) 0 [] (start all (show_or 200 show_number))
      ∙ ap (λ k. some (ok (drop k all))) (zero_mul (show_or 200 show_number)),
  max_loop_lem api (show_or 50 show_number) all serves (show_or-pos 50 show_number (omega arith))
        max_items (length all + 1) 0 0 [] refl (start all (show_or 50 show_number))
      ∙ ap (λ k. some (ok (limit max_items (drop k all)))) (zero_mul (show_or 50 show_number)),
)
