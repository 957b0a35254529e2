-- ===== src/Core/Event/Handles.antt =====
-- What the handles of an event bus are good for.
use grasp.Prelude.{
  ℕ, suc, ◌<◌, ◌≡◌, refl, sym, ap, ◌∙◌, inl, inr, Bool, false, not, List, [], ◌∷◌, ◌++◌, map,
  map-append, arith, ◌==◌, if◌then◌else◌, Bool-cases, retain, any, retain-append, retain-retain,
  retain_congr, retain_all,
}
use grasp.Core.Event.{
  MenteEvent, Subscriber, Entry, EventBus, new, subscribe, unsubscribe, call_all, publish,
}

-- The calls that change a bus.
pub data Call (F W : Type 0) : Type 0 where
  subscribed : Subscriber F W → Call F W
  unsubscribed : ℕ → Call F W

==_comm : (a b : ℕ) → (a == b) ≡ (b == a)
==_comm a b = ground arith

module _ {F W : Type 0} where
  -- The bus after the calls, the first one at the end of the list.
  unfoldable pub after : List (Call F W) → EventBus F W
  after [] = new
  after (subscribed callback ∷ calls) = (subscribe (after calls) callback).0
  after (unsubscribed id ∷ calls) = unsubscribe (after calls) id

  -- The handle that a subscription gets: how many came before it.
  abbrev pub count : List (Call F W) → ℕ
  count [] = 0
  count (subscribed callback ∷ calls) = suc (count calls)
  count (unsubscribed id ∷ calls) = count calls

  abbrev pub cancels : ℕ → Call F W → Bool
  cancels id (subscribed callback) = false
  cancels id (unsubscribed other) = other == id

  -- The calls later than the head, newest first, that were made when `calls` had been: who still
  -- listens, in the order of subscription.
  unfoldable pub listeners : (later calls : List (Call F W)) → List (Subscriber F W)
  listeners later [] = []
  listeners later (subscribed callback ∷ calls) =
      listeners (subscribed callback ∷ later) calls
      ++ (if any (cancels (count calls)) later then [] else callback ∷ [])
  listeners later (unsubscribed id ∷ calls) = listeners (unsubscribed id ∷ later) calls

  unfoldable pub call_each : List (Subscriber F W) → MenteEvent F → W → W
  call_each [] event w = w
  call_each (callback ∷ rest) event w = call_each rest event (callback event w)

  unfoldable kept : List (Call F W) → Entry F W → Bool
  kept later e = not (any (cancels e.id) later)

  next_id-after :
      (calls : List (Call F W))
      → count calls < 18446744073709551616
      → (after calls).next_id ≡ count calls
  unfolding after subscribe unsubscribe
  next_id-after [] small = refl
  next_id-after (subscribed callback ∷ calls) small =
      let same = next_id-after calls (omega (arith, small)) in omega (arith, same, small)
  next_id-after (unsubscribed id ∷ calls) small = next_id-after calls small

  call_all-map :
      (entries : List (Entry F W)) (event : MenteEvent F) (w : W)
      → call_all entries event w ≡ call_each (map (λ e. e.callback) entries) event w
  unfolding call_all call_each
  call_all-map [] event w = refl
  call_all-map (e ∷ entries) event w = call_all-map entries event (e.callback event w)

  one-kept :
      (later : List (Call F W)) (e : Entry F W)
      → map (λ x. x.callback) (retain (kept later) (e ∷ []))
        ≡ (if any (cancels e.id) later then [] else e.callback ∷ [])
  unfolding kept
  one-kept later e = elim (Bool-cases (any (cancels e.id) later)) [
    | inl gone ↦ rw gone refl
    | inr stays ↦ rw stays refl
  ]

  subscribers-after :
      (later calls : List (Call F W))
      → count calls < 18446744073709551616
      → map (λ e. e.callback) (retain (kept later) (after calls).subscribers)
        ≡ listeners later calls
  unfolding after subscribe unsubscribe listeners kept
  subscribers-after later [] small = refl
  subscribers-after later (subscribed callback ∷ calls) small =
      let bus = after calls in
      let e : Entry F W = record { id = bus.next_id; callback = callback } in
      let rest = subscribers-after (subscribed callback ∷ later) calls (omega (arith, small)) in
      let last = one-kept later e in
      rw
        (
          retain-append (kept later) bus.subscribers (e ∷ []),
          map-append (λ x. x.callback) (retain (kept later) bus.subscribers)
              (retain (kept later) (e ∷ [])),
          last,
          sym rest,
          next_id-after calls (omega (arith, small)),
        )
        refl
  subscribers-after later (unsubscribed id ∷ calls) small =
      ap (map (λ e. e.callback)) (
        retain-retain (kept later) (λ e. not (e.id == id)) (after calls).subscribers
        ∙ retain_congr _ (kept (unsubscribed id ∷ later)) (after calls).subscribers
            (λ e. rw (==_comm e.id id) (ground arith)))
      ∙ subscribers-after (unsubscribed id ∷ later) calls small

  -- After any calls with fewer than 2 ^ 64 subscriptions among them, an event goes to those who
  -- subscribed and whose handle has not been cancelled since, in the order of subscription, and to
  -- nobody else.
  pub publish-after :
      (calls : List (Call F W)) (event : MenteEvent F) (w : W)
      → count calls < 18446744073709551616
      → publish (after calls) event w ≡ call_each (listeners [] calls) event w
  unfolding kept
  publish-after calls event w small =
      call_all-map (after calls).subscribers event w
      ∙ ap (λ l. call_each l event w)
          (ap (map (λ e. e.callback))
              (sym (retain_all (kept []) (after calls).subscribers (λ e. refl)))
            ∙ subscribers-after [] calls small)
