-- ===== src/MsgSyncer/LoadLaws.antt =====
-- `LoadSeq` reads every conversation once, and `splitSeqs` loses nothing.
use mathlib.Core.List.{append-nil}
use openim_sdk_core.Prelude.{
  ℕ, zero, suc, ◌+◌, ◌-◌, ◌*◌, ◌≤◌, ◌<◌, ◌≡◌, sym, true, false, List, [], ◌++◌, inl, inr, String,
  ◌==◌, nat_eq, string_eq, ltb, leb, arith, length, take, drop, concat, All, Bool-cases,
  take_of_length-le, drop_of_length-le, take-drop-append, length-take, length-drop,
}
use openim_sdk_core.MsgSyncer.Load.{part_size, currency, part, parts_from, split_loop, split_seqs}

length-le-currency : (ids : List String) → length ids ≤ currency ids * part_size
unfolding currency
length-le-currency ids = ground arith

-- A part that is not the last has its 20 conversations, and the last has what is left.
part_last :
    (ids : List String) (i : ℕ)
    → (i == currency ids - 1) ≡ true
    → part ids i ≡ drop (i * part_size) ids
unfolding part
part_last ids i e = rw e (
    take_of_length-le (length ids - i * part_size) (drop (i * part_size) ids)
      (omega (arith, length-drop (i * part_size) ids)))

part_inner :
    (ids : List String) (i : ℕ)
    → (i == currency ids - 1) ≡ false
    → part ids i ++ drop ((i + 1) * part_size) ids ≡ drop (i * part_size) ids
unfolding part
part_inner ids i e =
    let width : i * part_size + part_size - i * part_size ≡ part_size = omega arith in
    let next : (i + 1) * part_size ≡ i * part_size + part_size = omega arith in
    rw (e, width, next) (take-drop-append (i * part_size) part_size ids)

-- From the `i`-th part on, the parts are the list from their start on.
concat-parts_from :
    (ids : List String) (i n : ℕ)
    → i + n ≡ currency ids
    → concat (parts_from ids i n) ≡ drop (i * part_size) ids
unfolding parts_from
concat-parts_from ids i zero e =
    sym (drop_of_length-le (i * part_size) ids (ground (arith, e, length-le-currency ids)))
concat-parts_from ids i (suc n) e =
    let ih = concat-parts_from ids (i + 1) n (omega arith) in
    elim (Bool-cases (i == currency ids - 1)) [
      | inl last ↦
          let over : drop ((i + 1) * part_size) ids ≡ [] =
            drop_of_length-le ((i + 1) * part_size) ids
              (ground (arith, e, last, length-le-currency ids)) in
          rw (ih, over, part_last ids i last) (append-nil _)
      | inr more ↦ rw ih (part_inner ids i more)
    ]

-- The parts that the goroutines of `LoadSeq` read are the list of conversations cut in pieces: each
-- conversation is read by exactly one of them, in order.
concat-parts : (ids : List String) → concat (parts_from ids 0 (currency ids)) ≡ ids
concat-parts ids = concat-parts_from ids 0 (currency ids) (omega arith)

split_loop_lem :
    (split : ℕ) (seqs : List ℕ) (fuel i : ℕ)
    → 0 < split
    → length seqs ≤ i + fuel
    → (concat (split_loop split seqs fuel i) ≡ drop i seqs)
      × All (λ piece. length piece ≤ split) (split_loop split seqs fuel i)
unfolding split_loop
split_loop_lem split seqs zero i pos enough = (sym (drop_of_length-le i seqs (omega arith)), tt)
split_loop_lem split seqs (suc fuel) i pos enough =
    let ih = split_loop_lem split seqs fuel (i + split) pos (omega arith) in
    elim (Bool-cases (ltb i (length seqs))) [
      | inl more ↦ elim (Bool-cases (ltb (length seqs) (i + split))) [
        | inl short ↦
            let whole : take (length seqs - i) (drop i seqs) ≡ drop i seqs =
              take_of_length-le (length seqs - i) (drop i seqs)
                (omega (arith, length-drop i seqs)) in
            let over : drop (i + split) seqs ≡ [] =
              drop_of_length-le (i + split) seqs (ground (arith, short)) in
            rw (more, short)
              (
                rw (whole, ih.0, over) (append-nil (drop i seqs)),
                (ground (arith, short, more, length-take (length seqs - i) (drop i seqs)), ih.1),
              )
        | inr long ↦
            let width : i + split - i ≡ split = omega arith in
            rw (more, long, width)
              (
                rw ih.0 (take-drop-append i split seqs),
                (omega (arith, length-take split (drop i seqs)), ih.1),
              )
      ]
      | inr ended ↦ rw ended (sym (drop_of_length-le i seqs (ground (arith, ended))), tt)
    ]

-- `splitSeqs` cuts the sequence numbers in pieces of at most `split` each, which put together give
-- the numbers back, for a `split` above 0.
split_seqs_lem :
    (split : ℕ) (seqs : List ℕ)
    → 0 < split
    → (concat (split_seqs split seqs) ≡ seqs)
      × All (λ piece. length piece ≤ split) (split_seqs split seqs)
unfolding split_seqs
split_seqs_lem split seqs pos = elim (Bool-cases (leb (length seqs) split)) [
  | inl short ↦ rw short (append-nil seqs, (ground (arith, short), tt))
  | inr long ↦ rw long (split_loop_lem split seqs (length seqs) 0 pos (omega arith))
]
