-- ===== src/Session/Healthy.antt =====
-- A server that serves one session alone and without faults: what its statements do.
use real_time_ai_chat_backen.Base.{ℕ, ◌+◌, ◌≡◌, false, List, [], arith}
use real_time_ai_chat_backen.Errors.{ok}
use real_time_ai_chat_backen.Models.{Tables, Write}
use real_time_ai_chat_backen.Session.{Server, State, view, statement, select, session_actions}
use real_time_ai_chat_backen.Session.Atomic.{IsQuiet}

pub record IsHealthy (server : Server) : Type 0 where
  pub no_faults : (n : ℕ) → server.fault_at n ≡ false
  pub others_same : (n : ℕ) (t : Tables) (ws : List Write) → server.others_at n t ws ≡ t

module _ (server : Server) (healthy : IsHealthy server) where
  pub IsHealthy-IsQuiet : IsQuiet server
  IsHealthy-IsQuiet = record { others_same = healthy.others_same }

  pub statement-healthy : (s : State) → statement server s ≡ (ok tt, record s { tick = s.tick + 1 })
  unfolding statement
  statement-healthy s =
      ground (arith, healthy.no_faults s.tick, healthy.others_same s.tick s.committed s.pending)

  pub select-healthy :
      {A : Type 0} (f : Tables → A) (s : State)
      → select server f s ≡ (ok (f (view s)), record s { tick = s.tick + 1 })
  unfolding select session_actions
  select-healthy f s =
      ground (arith, healthy.no_faults s.tick, healthy.others_same s.tick s.committed s.pending)

  pub view-statement : (s : State) → view (statement server s).1 ≡ view s
  view-statement s = rw (statement-healthy s)

pub view_of_empty : (s : State) → s.pending ≡ [] → view s ≡ s.committed
view_of_empty s h = rw h
