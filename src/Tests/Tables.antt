-- ===== src/Tests/Tables.antt =====
-- A table of numbered values kept in a map, which meets what `Sync` relies on.
use openim_sdk_core.Prelude.{
  ℕ, ◌≡◌, refl, Bool, List, [], ◌∷◌, Option, none, some, ◌==◌, nat_eq, arith,
}
use openim_sdk_core.Prelude.Map
use openim_sdk_core.Prelude.Map.{Map, lookup, lookup-insert, lookup-delete}
use openim_sdk_core.Prelude.Outcome.{done}
use openim_sdk_core.Syncer.{Syncer, Packages, Arguments, State, notify, on_notice}
use openim_sdk_core.Syncer.Table.{IsTable, find_last}
use openim_sdk_core.Syncer.Totality.{IsReliable}

-- An id and a value.
abbrev pub Item : Type 0
Item = ℕ × ℕ

abbrev pub uuid : Item → ℕ
uuid x = x.0

abbrev pub slice_to_map : (Item → ℕ) → List Item → Map ℕ Item
slice_to_map f [] = []
slice_to_map f (x ∷ xs) =
    let rest = slice_to_map f xs in
    elim (lookup (f x) rest) [ some y ↦ rest | none ↦ Map.insert (f x) x rest ]

abbrev pub packages : Packages Item ℕ
packages = record {
  zero_value = (0, 0);
  cmp_equal = λ a b. a.1 == b.1;
  slice_to_map = slice_to_map;
}

abbrev pub syncer : Syncer (Map ℕ Item) Item ℕ
syncer = record {
  insert = λ x w. done (Map.insert x.0 x w);
  update = λ x y w. done (Map.insert x.0 x w);
  delete = λ x w. done (Map.delete x.0 w);
  notice = none;
  equal = none;
  uuid = uuid;
}

abbrev pub arguments : List Bool → Arguments (Map ℕ Item) Item
arguments flags = record { notice = none; skip_deletion_and_notice = flags }

abbrev pub rows : Map ℕ Item → ℕ → Option Item
rows w id = lookup id w

notify-Done :
    (flags : List Bool) (st : State) (x y : Item) (w : Map ℕ Item)
    → notify syncer (arguments flags) st x y w ≡ done w
unfolding notify on_notice
notify-Done flags st x y w = ground arith

lookup-slice_to_map :
    (xs : List Item) (id : ℕ) → lookup id (slice_to_map uuid xs) ≡ find_last uuid id xs
unfolding lookup
lookup-slice_to_map [] id = refl
lookup-slice_to_map (x ∷ xs) id = ground (
  arith,
  lookup-slice_to_map xs id,
  lookup-slice_to_map xs x.0,
  lookup-insert x.0 id x (slice_to_map uuid xs),
)

pub syncer-IsTable : (flags : List Bool) → IsTable packages syncer (arguments flags) rows
syncer-IsTable flags = record {
  insert_row = λ x w id. lookup-insert x.0 id x w;
  update_row = λ x y w id. lookup-insert x.0 id x w;
  delete_row = λ x w id. lookup-delete x.0 id w;
  notify_row = λ x y w id. (
    rw (notify-Done flags State.insert x y w) refl,
    rw (notify-Done flags State.update x y w) refl,
    rw (notify-Done flags State.unchanged x y w) refl,
    rw (notify-Done flags State.delete x y w) refl,
  );
  slice_to_map_row = lookup-slice_to_map;
}

pub syncer-IsReliable : (flags : List Bool) → IsReliable syncer (arguments flags)
syncer-IsReliable flags = record {
  insert_done = λ x w. (_, refl);
  update_done = λ x y w. (_, refl);
  delete_done = λ x w. (_, refl);
  own_notice_done = λ st x y w. (w, refl);
  notice_done = λ st x y w. (w, refl);
}
