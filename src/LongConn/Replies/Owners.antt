-- ===== src/LongConn/Replies/Owners.antt =====
-- Which request a channel belongs to: internal/interaction/ws_resp_asyn.go.
use openim_sdk_core.Prelude.{
  ℕ, zero, suc, ◌≡◌, refl, sym, ap, subst, ◌∙◌, Bool, true, false, List, [], ◌∷◌, ◌++◌, Option,
  none, some, String, nat_eq, string_eq, ◌==◌, if◌then◌else◌, length, length-append, get_elem?, All,
  ◌⊎◌, Bool-cases, inl, inr, arith,
}
use openim_sdk_core.Prelude.Map.{Map, lookup, insert, delete, lookup-insert, lookup-delete}
use openim_sdk_core.LongConn.{GeneralWsResp}
use openim_sdk_core.LongConn.Replies.{
  Chan, WsRespAsyn, new_chan, set_chan, add_ch_by_incr, Exchange,
}

abbrev pub is_open : Option Chan → Bool
is_open none = false
is_open (some chan) = if chan.is_closed then false else true

abbrev pub buffer_of : Option Chan → Option GeneralWsResp
buffer_of none = none
buffer_of (some chan) = chan.buffer

-- The channel was made for the string.
abbrev pub IsFor : List String → ℕ → String → Type 0
IsFor made_for i incr = get_elem? made_for i ≡ some incr

-- A registered channel is open and was made for the string it is registered under.
abbrev pub IsRegistered : List String → WsRespAsyn → Type 0
IsRegistered made_for u =
    (incr : String) (i : ℕ)
    → lookup incr u.ws_notification ≡ some i
    → IsFor made_for i incr × (is_open (lookup i u.chans) ≡ true)

-- A response waits in a channel that was made for its string.
abbrev pub IsBuffered : List String → WsRespAsyn → Type 0
IsBuffered made_for u =
    (i : ℕ) (resp : GeneralWsResp)
    → buffer_of (lookup i u.chans) ≡ some resp
    → IsFor made_for i resp.msg_incr

abbrev pub IsKept : List String → WsRespAsyn → Type 0
IsKept made_for u = (u.made ≡ length made_for) × IsRegistered made_for u × IsBuffered made_for u

-- So does the response that waits for its next attempt.
abbrev pub IsHeld : List String → WsRespAsyn → Option (ℕ × GeneralWsResp) → Type 0
IsHeld made_for u none = Unit
IsHeld made_for u (some (i, resp)) =
    IsFor made_for i resp.msg_incr × (is_open (lookup i u.chans) ≡ true)

-- What a receiver took is a response to the request that its channel was made for.
abbrev pub Matches : List String → (ℕ × GeneralWsResp) → Type 0
Matches made_for (i, resp) = IsFor made_for i resp.msg_incr

abbrev pub IsServed : Exchange → Type 0
IsServed x =
    IsKept x.made_for x.ws
    × IsHeld x.made_for x.ws x.holder
    × All (Matches x.made_for) x.received
    × (x.panicked ≡ false)

pub IsFor-append :
    (made_for : List String) (i : ℕ) (incr new : String)
    → IsFor made_for i incr
    → IsFor (made_for ++ (new ∷ [])) i incr
IsFor-append [] i incr new h = absurd (cc)
IsFor-append (x ∷ made_for) zero incr new h = h
IsFor-append (x ∷ made_for) (suc i) incr new h = IsFor-append made_for i incr new h

IsFor-last :
    (made_for : List String) (new : String) → IsFor (made_for ++ (new ∷ [])) (length made_for) new
IsFor-last [] new = refl
IsFor-last (x ∷ made_for) new = IsFor-last made_for new

pub All-IsFor :
    (made_for : List String) (new : String) (xs : List (ℕ × GeneralWsResp))
    → All (Matches made_for) xs
    → All (Matches (made_for ++ (new ∷ []))) xs
All-IsFor made_for new [] all = tt
All-IsFor made_for new ((i, resp) ∷ xs) all =
    (IsFor-append made_for i resp.msg_incr new all.0, All-IsFor made_for new xs all.1)

-- Lookups after a write, for a key that is the written one or another.
lookup-insert-made :
    (made_for : List String) (new incr : String) (u : WsRespAsyn) (i : ℕ)
    → u.made ≡ length made_for
    → IsRegistered made_for u
    → (if new == incr then some u.made else lookup incr u.ws_notification) ≡ some i
    → IsFor (made_for ++ (new ∷ [])) i incr
      × (is_open (if u.made == i then some new_chan else lookup i u.chans) ≡ true)
lookup-insert-made made_for new incr u i made registered h = elim (Bool-cases (new == incr)) [
  | inl same ↦
      let at_made : i ≡ u.made = ground arith in
      let new_for : new ≡ incr = (string_eq.beq_iff new incr).0 same in
      let last = IsFor-last made_for new in (cc, ground arith)
  | inr apart ↦
      let found = registered incr i (ground arith) in
      (IsFor-append made_for i incr new found.0, ground (arith, found.1))
]

made-IsBuffered :
    (made_for : List String) (u : WsRespAsyn) (new : String) (i : ℕ) (resp : GeneralWsResp)
    → IsBuffered made_for u
    → buffer_of (if u.made == i then some new_chan else lookup i u.chans) ≡ some resp
    → IsFor (made_for ++ (new ∷ [])) i resp.msg_incr
made-IsBuffered made_for u new i resp buffered h = elim (Bool-cases (u.made == i)) [
  | inl same ↦ absurd (ground arith)
  | inr apart ↦ IsFor-append made_for i resp.msg_incr new (buffered i resp (ground arith))
]

pub made-IsKept :
    (made_for : List String) (u : WsRespAsyn) (new : String)
    → IsKept made_for u
    → IsKept (made_for ++ (new ∷ [])) (add_ch_by_incr new u)
unfolding add_ch_by_incr
made-IsKept made_for u new (made, registered, buffered) = (
  omega (arith, length-append made_for (new ∷ [])),
  λ incr i h.
      let r =
        lookup-insert-made made_for new incr u i made registered
          (sym (lookup-insert new incr u.made u.ws_notification) ∙ h) in
      (r.0, ap is_open (lookup-insert u.made i new_chan u.chans) ∙ r.1),
  λ i resp h.
      made-IsBuffered made_for u new i resp buffered
        (sym (ap buffer_of (lookup-insert u.made i new_chan u.chans)) ∙ h),
)

-- What is found after a write: the new value under its key, and the old one under any other.
pub written_cases :
    (i j : ℕ) (chan : Chan) (m : Map ℕ Chan)
    → ((i ≡ j) × (lookup j (insert i chan m) ≡ some chan))
      ⊎ ((i == j ≡ false) × (lookup j (insert i chan m) ≡ lookup j m))
written_cases i j chan m = elim (Bool-cases (i == j)) [
  | inl at ↦ inl (ground arith, lookup-insert i j chan m ∙ rw at)
  | inr apart ↦ inr (apart, lookup-insert i j chan m ∙ rw apart)
]

pub set-open :
    (i j : ℕ) (chan chan' : Chan) (u : WsRespAsyn)
    → lookup i u.chans ≡ some chan
    → chan'.is_closed ≡ chan.is_closed
    → is_open (lookup j (set_chan i chan' u).chans) ≡ is_open (lookup j u.chans)
set-open i j chan chan' u e same = elim (written_cases i j chan' u.chans) [
  | inl (at, found) ↦
      ap is_open found
      ∙ ap (λ b. if b then false else true) same
      ∙ ap is_open (sym e ∙ ap (λ k. lookup k u.chans) at)
  | inr (apart, found) ↦ ap is_open found
]

set-IsBuffered :
    (made_for : List String) (i : ℕ) (chan' : Chan) (u : WsRespAsyn)
    → IsBuffered made_for u
    → ((resp : GeneralWsResp) → chan'.buffer ≡ some resp → IsFor made_for i resp.msg_incr)
    → IsBuffered made_for (set_chan i chan' u)
set-IsBuffered made_for i chan' u buffered fits j resp h = elim (written_cases i j chan' u.chans) [
  | inl (at, found) ↦
      subst (λ k. IsFor made_for k resp.msg_incr) at (fits resp (sym (ap buffer_of found) ∙ h))
  | inr (apart, found) ↦ buffered j resp (sym (ap buffer_of found) ∙ h)
]

pub set-IsKept :
    (made_for : List String) (i : ℕ) (chan chan' : Chan) (u : WsRespAsyn)
    → IsKept made_for u
    → lookup i u.chans ≡ some chan
    → chan'.is_closed ≡ chan.is_closed
    → ((resp : GeneralWsResp) → chan'.buffer ≡ some resp → IsFor made_for i resp.msg_incr)
    → IsKept made_for (set_chan i chan' u)
set-IsKept made_for i chan chan' u (made, registered, buffered) e same fits = (
  made,
  λ incr j h. ((registered incr j h).0, set-open i j chan chan' u e same ∙ (registered incr j h).1),
  set-IsBuffered made_for i chan' u buffered fits,
)

deleted_cases :
    (incr other : String) (j : ℕ) (m : Map String ℕ)
    → lookup other (delete incr m) ≡ some j
    → (incr == other ≡ false) × (lookup other m ≡ some j)
deleted_cases incr other j m h =
    let after = lookup-delete incr other m in
    elim (Bool-cases (incr == other)) [
      | inl same ↦ absurd (ground arith)
      | inr apart ↦ (apart, sym (rw apart) ∙ sym after ∙ h)
    ]

-- A channel that is closed is registered no more: no other string has it.
pub closed-IsKept :
    (made_for : List String) (incr : String) (i : ℕ) (chan : Chan) (u : WsRespAsyn)
    → IsKept made_for u
    → IsFor made_for i incr
    → lookup i u.chans ≡ some chan
    → IsKept made_for (record (set_chan i (record chan { is_closed = true }) u) {
      ws_notification = delete incr u.ws_notification;
    })
closed-IsKept made_for incr i chan u (made, registered, buffered) own e = (
  made,
  λ other j h.
      let (apart, before) = deleted_cases incr other j u.ws_notification h in
      let now = registered other j before in
      elim (written_cases i j (record chan { is_closed = true }) u.chans) [
        | inl (at, found) ↦ absurd (ground (arith, string_eq.beq_iff incr other))
        | inr (away, found) ↦ (now.0, ap is_open found ∙ now.1)
      ],
  set-IsBuffered made_for i (record chan { is_closed = true }) u buffered
      (λ resp h. buffered i resp (ap buffer_of e ∙ h)),
)
