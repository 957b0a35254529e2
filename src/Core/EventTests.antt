-- ===== src/Core/EventTests.antt =====
-- An event bus at concrete calls: each callback writes its name into a log.
use grasp.Prelude.{ℕ, ◌≡◌, refl, List, [], ◌∷◌, ◌++◌, arith}
use grasp.Core.Event.{Subscriber, space_created, publish, subscribe, unsubscribe, call_all}
use grasp.Core.Event.Handles.{
  Call, subscribed, unsubscribed, after, listeners, call_each, publish-after,
}

abbrev logs : ℕ → Subscriber ℕ (List ℕ)
logs name event log = log ++ name ∷ []

-- The handle 2 is cancelled before anybody has it, and the handle 0 afterwards.
abbrev calls : List (Call ℕ (List ℕ))
calls =
    unsubscribed 0
    ∷ subscribed (logs 9)
    ∷ unsubscribed 2
    ∷ subscribed (logs 8)
    ∷ subscribed (logs 7)
    ∷ []

publish-calls : publish (after calls) (space_created 4) [] ≡ 8 ∷ 9 ∷ []
unfolding after subscribe unsubscribe call_all
publish-calls = refl

publish-after_example :
    publish (after calls) (space_created 4) [] ≡ call_each (listeners [] calls) (space_created 4) []
publish-after_example = publish-after calls (space_created 4) [] (omega arith)
