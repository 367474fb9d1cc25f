-- ===== src/Lifecycle/Cycle.antt =====
-- The pools of app/database over a life of the application of app/main.py.
use real_time_ai_chat_backen.Base.{ℕ, ◌+◌, ◌≡◌, refl, false, none, List, [], ◌∷◌, arith}
use real_time_ai_chat_backen.Errors.{ok}
use real_time_ai_chat_backen.WebSocket.PubSub.{PubSub}
use real_time_ai_chat_backen.Lifecycle.{
  Application, Faults, start_up, shut_down, get_engine, get_redis_client, remove,
}

-- The packages raise nothing.
abbrev pub working : Faults
working = record {
  create_fails = false;
  ping_fails = false;
  aclose_fails = false;
  dispose_fails = false;
}

remove-first : (n : ℕ) (ns : List ℕ) → remove n (n ∷ ns) ≡ ns
remove-first n ns = ground arith

module _ (a : Application) (work : PubSub → PubSub) where
  -- The application that has started, what its work has made of the subscriptions, and the
  -- application that has stopped.
  abbrev pub up : Application
  up = (start_up working a).1

  abbrev pub worked : Application
  worked = record up { pubsub = work up.pubsub }

  abbrev pub down : Application
  down = (shut_down working worked).1

  -- Where the packages raise nothing: the application starts with an engine and a client to be had,
  -- and whatever its work does to the subscriptions, it stops with every pool closed that it
  -- opened, none to be had, and no subscription.
  pub life_cycle :
      ((start_up working a).0 ≡ ok tt)
      × (get_engine up ≡ ok a.made)
      × (get_redis_client up ≡ ok (a.made + 1))
      × ((shut_down working worked).0 ≡ ok tt)
      × (down.open_engines ≡ a.open_engines)
      × (down.open_clients ≡ a.open_clients)
      × (down.engine ≡ none)
      × (down.session_local ≡ none)
      × (down.redis_client ≡ none)
      × (down.pubsub.subscriptions ≡ [])
      × (down.pubsub.started ≡ false)
  unfolding start_up shut_down get_engine get_redis_client
  life_cycle = (
    refl,
    refl,
    refl,
    refl,
    remove-first a.made a.open_engines,
    remove-first (a.made + 1) a.open_clients,
    refl,
    refl,
    refl,
    refl,
    refl,
  )
