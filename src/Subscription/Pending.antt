-- ===== src/Subscription/Pending.antt =====
-- The statuses that callers still wait for.
use openim_sdk_core.Prelude.{
  ℕ, zero, suc, ◌≡◌, ◌≢◌, ◌⊎◌, refl, ap, sym, ◌∙◌, Bool, true, false, not, ◌&&◌, List, [], ◌∷◌,
  ◌++◌, Option, none, some, String, string_eq, nat_eq, ◌==◌, arith, inl, inr, Bool-cases, length,
}
use openim_sdk_core.Prelude.Map.{
  Map, lookup, insert, delete, lookup-insert, lookup-delete, beq_self,
}
use openim_sdk_core.Subscription.{SubscriptionStatues, Ref, finish, finish_all}

-- A status that exists and whose channel is open.
unfoldable pub pending : List SubscriptionStatues → Ref → Bool
pending [] r = false
pending (s ∷ heap) zero = not s.done
pending (s ∷ heap) (suc r) = pending heap r

pub pending-finish :
    (r q : Ref) (online : List ℕ) (err : Option String) (heap : List SubscriptionStatues)
    → pending (finish r online err heap) q ≡ (pending heap q && not (q == r))
unfolding pending finish
pending-finish r q online err [] = refl
pending-finish zero zero online err (s ∷ heap) = ground arith
pending-finish zero (suc q) online err (s ∷ heap) = ground arith
pending-finish (suc r) zero online err (s ∷ heap) = ground arith
pending-finish (suc r) (suc q) online err (s ∷ heap) =
    ground (arith, pending-finish r q online err heap)

pub pending-append :
    (heap : List SubscriptionStatues) (s : SubscriptionStatues) (q : Ref)
    → pending (heap ++ (s ∷ [])) q ≡ true
    → (pending heap q ≡ true) ⊎ (q ≡ length heap)
unfolding pending
pending-append [] s zero h = inr refl
pending-append [] s (suc q) h = ground (arith, h)
pending-append (t ∷ heap) s zero h = inl h
pending-append (t ∷ heap) s (suc q) h = elim (pending-append heap s q h) [
  | inl old ↦ inl old
  | inr e ↦ inr (ap suc e)
]

-- Every status that is waited for is in `load`, from where it will be finished.
abbrev pub Kept : List SubscriptionStatues → Map String Ref → Type 0
Kept heap load = (q : Ref) → pending heap q ≡ true → (id : String) × (lookup id load ≡ some q)

pub finish-Kept :
    (r : Ref) (online : List ℕ) (err : Option String) (heap : List SubscriptionStatues)
    (load : Map String Ref)
    → Kept heap load
    → Kept (finish r online err heap) load
finish-Kept r online err heap load k q h =
    k q (ground (arith, h, pending-finish r q online err heap))

lookup_same :
    (id key : String) (load : Map String Ref) → id == key ≡ true → lookup key load ≡ lookup id load
lookup_same id key load h = ap (λ x. lookup x load) (sym ((string_eq.beq_iff id key).0 h))

value_or : ℕ → Option ℕ → ℕ
value_or d none = d
value_or d (some v) = v

some_inj : (q r : ℕ) → some q ≡ some r → q ≡ r
unfolding value_or
some_inj q r h = ap (value_or 0) h

pub lookup-delete_other :
    (id key : String) (r q : Ref) (load : Map String Ref)
    → lookup id load ≡ some r
    → lookup key load ≡ some q
    → (q == r) ≡ false
    → lookup key (delete id load) ≡ some q
lookup-delete_other id key r q load found at other = elim (Bool-cases (id == key)) [
  | inl same ↦ ground (arith, other, some_inj q r (sym at ∙ lookup_same id key load same ∙ found))
  | inr apart ↦ rw (lookup-delete id key load, apart) at
]

lookup-insert_other :
    (id key : String) (r q : Ref) (load : Map String Ref)
    → lookup id load ≡ none
    → lookup key load ≡ some q
    → lookup key (insert id r load) ≡ some q
lookup-insert_other id key r q load fresh at = elim (Bool-cases (id == key)) [
  | inl same ↦ ground (arith, sym fresh ∙ sym (lookup_same id key load same) ∙ at)
  | inr apart ↦ rw (lookup-insert id key r load, apart) at
]

-- A finished status may leave the map.
pub finish_delete-Kept :
    (id : String) (r : Ref) (online : List ℕ) (err : Option String)
    (heap : List SubscriptionStatues) (load : Map String Ref)
    → lookup id load ≡ some r
    → Kept heap load
    → Kept (finish r online err heap) (delete id load)
finish_delete-Kept id r online err heap load found k q h =
    let (key, at) = k q (ground (arith, h, pending-finish r q online err heap)) in
    (
      key,
      lookup-delete_other id key r q load found at
          (ground (arith, h, pending-finish r q online err heap)),
    )

-- A new status enters the map.
pub append-Kept :
    (id : String) (s : SubscriptionStatues) (heap : List SubscriptionStatues)
    (load : Map String Ref)
    → lookup id load ≡ none
    → Kept heap load
    → Kept (heap ++ (s ∷ [])) (insert id (length heap) load)
append-Kept id s heap load fresh k q h = elim (pending-append heap s q h) [
  | inl old ↦
      let (key, at) = k q old in (key, lookup-insert_other id key (length heap) q load fresh at)
  | inr e ↦ (id, rw (lookup-insert id id (length heap) load, beq_self id) (ap some (sym e)))
]

-- `finish_all` leaves nothing pending of what the map has.
pub finish_all-pending :
    (err : Option String) (load : Map String Ref) (heap : List SubscriptionStatues) (q : Ref)
    → pending (finish_all err load heap) q ≡ true
    → (pending heap q ≡ true) × ((id : String) → lookup id load ≢ some q)
unfolding finish_all lookup
finish_all-pending err [] heap q h = (h, λ id e. ground (arith, e))
finish_all-pending err ((id, r) ∷ load) heap q h =
    let (before, others) = finish_all-pending err load (finish r [] err heap) q h in
    (
      ground (arith, before, pending-finish r q [] err heap),
      λ key. elim (Bool-cases (id == key)) [
        | inl same ↦
            rw same (λ e. ground (arith, before, pending-finish r q [] err heap, some_inj r q e))
        | inr apart ↦ rw apart (others key)
      ],
    )
