-- ===== src/WebSocket/Backend/Settled.antt =====
-- The invariant of everything that app/services/chat.py, app/websocket and app/routers/ws.py do.
use mathlib.Core.List.{Memᴰ}
use mathlib.Core.List.Memᴰ
use mathlib.Core.Path.{subst}
use real_time_ai_chat_backen.Base.{
  ◌≡◌, ◌++◌, sym, arith, ◌⊎◌, inl, inr, Bool, true, false, List, [], ◌==◌, All, if-holds,
  Bool-cases, ==_iff,
}
use real_time_ai_chat_backen.Errors.{Result, ok, err}
use real_time_ai_chat_backen.Models.{Uuid}
use real_time_ai_chat_backen.Models.Validity.{All-imp}
use real_time_ai_chat_backen.Platform.{Platform}
use real_time_ai_chat_backen.Session.Atomic.{IsQuiet}
use real_time_ai_chat_backen.WebSocket.Manager.{WebSocket, SendOutcome}
use real_time_ai_chat_backen.WebSocket.Protocol.{Outbound}
use real_time_ai_chat_backen.WebSocket.Protocol.Wire.{Wire, IsFaithful, Raw}
use real_time_ai_chat_backen.WebSocket.PubSub.{Task, received, update}
use real_time_ai_chat_backen.WebSocket.Chat.{World, Surroundings, Chat}
use real_time_ai_chat_backen.WebSocket.Chat.Backed.{Backed, IsAuthored}
use real_time_ai_chat_backen.WebSocket.Chat.Turns.{Progress, idle, receive, resume}
use real_time_ai_chat_backen.WebSocket.FanOut.{Action, listener, leaving, System}
use real_time_ai_chat_backen.WebSocket.Backend.{
  Backend, Step, fan_out, receiving, resuming, elsewhere, world, is_idle, is_serving, after_turn,
  take_turn, next_system, next_progress, with_stream, proceed, IsAllowed, Reachable, opened,
  stepped,
}
use real_time_ai_chat_backen.WebSocket.Backend.Order.{IsOrdered}
use real_time_ai_chat_backen.WebSocket.Backend.Turns.{InHand, Turned, All-append}
use real_time_ai_chat_backen.WebSocket.Backend.Turns.Loop.{receive-Turned, resume-Turned}
use real_time_ai_chat_backen.WebSocket.Backend.Streams.{
  IsPublished, IsAccounted, IsTidy, fresh-IsTidy, set_phase-IsTidy,
}
use real_time_ai_chat_backen.WebSocket.Backend.Broadcasts.{perform-IsTidy}
use real_time_ai_chat_backen.WebSocket.Backend.Rows.{
  conversation_channel-apart, kept-Backed, kept-InHand, Held-InHand, grown-IsTidy, All-Memᴰ,
  All-members, drop-append,
}

module _ (user_of conversation_of : WebSocket → Uuid) where
  -- The frame was published for the conversation by the message loop of a client of it, and if it
  -- shows a user's message, then one of the user as whom that client was let in.
  abbrev pub IsFromClient : Uuid × Outbound → Type 0
  IsFromClient x = (c : WebSocket) × (x.0 ≡ conversation_of c) × IsAuthored (user_of c) x.1

module _ (platform : Platform) (wire : Wire) (faithful : IsFaithful platform wire)
    (around : WebSocket → Surroundings) (quiet : (c : WebSocket) → IsQuiet (around c).server)
    (user_of conversation_of : WebSocket → Uuid) where
  pub record IsSettled (b : Backend) : Type 0 where
    pub backed : All (Backed b.store.committed.messages) b.published
    pub authored :
        (x : Uuid × Outbound) → Memᴰ x b.published → IsFromClient user_of conversation_of x
    pub ordered : IsOrdered [] b.published
    pub tidy : IsTidy platform wire b.published b.replied conversation_of b.system
    pub in_hand :
        (c : WebSocket)
        → InHand b.store.committed.messages b.published
            (conversation_of c)
            (user_of c)
            (b.progress c)

  -- The socket of the client gets the frames that its own message loop has sent.
  with_stream-IsTidy :
      (c : WebSocket) (frames : List Outbound) (r : Result Progress) (p : List (Uuid × Outbound))
      (own : WebSocket → List Outbound) (s : System)
      → All (IsAccounted platform wire p own c (conversation_of c)) frames
      → IsTidy platform wire p own conversation_of s
      → IsTidy platform wire p own conversation_of (next_system c r (with_stream c frames s))
  with_stream-IsTidy c frames r p own s k h = after r
    where
      base : IsTidy platform wire p own conversation_of (with_stream c frames s)
      base = record {
        named = h.named;
        valid = h.valid;
        own = h.own;
        carried = h.carried;
        streamed = λ w. streamed_at w (Bool-cases (c == w));
      }
        where
          streamed_at :
              (w : WebSocket)
              → ((c == w) ≡ true) ⊎ ((c == w) ≡ false)
              → All
                  (IsAccounted platform wire p own w (conversation_of w))
                  (update s.streams c frames w)
          streamed_at w (inl here) = rw here (
              subst (λ d. All (IsAccounted platform wire p own d (conversation_of d)) frames)
                ((==_iff c w).0 here) k)
          streamed_at w (inr there) = rw there (h.streamed w)

      after :
          (r : Result Progress)
          → IsTidy platform wire p own conversation_of (next_system c r (with_stream c frames s))
      after (ok q) = base
      after (err e) = set_phase-IsTidy platform wire p own conversation_of c leaving _ base

  turn-IsSettled :
      (c : WebSocket) (p : Progress) (r : Result Progress) (w : World) (b : Backend)
      → Turned (conversation_of c) (user_of c) p (world c b) r w
      → IsSettled b
      → IsSettled (after_turn c (r, w) b)
  turn-IsSettled c p r w b turned h = record {
    backed = turned.backed h.backed;
    authored = λ x m. elim (turned.authored x m) [
      | inl earlier ↦ h.authored x earlier
      | inr new ↦ (c, new.0, new.1)
    ];
    ordered = turned.ordered h.ordered;
    tidy = with_stream-IsTidy c w.sent r w.published own b.system streamed tidy;
    in_hand = λ d.
        if-holds (InHand w.store.committed.messages w.published (conversation_of d) (user_of d))
          (c == d)
          (λ here.
            subst
              (λ e.
                InHand w.store.committed.messages w.published (conversation_of e) (user_of e)
                  (next_progress r))
              ((==_iff c d).0 here) (Held-InHand _ _ _ _ r turned.held))
          (λ _.
            kept-InHand b.store.committed.messages _ b.published _ _ _ (b.progress d) turned.rows
              turned.grown (h.in_hand d));
  }
    where
      own : WebSocket → List Outbound
      own = (after_turn c (r, w) b).replied

      new : List Outbound
      new = turned.replies.0

      logged : own c ≡ b.replied c ++ new
      logged = ground (arith, drop-append (b.system.streams c) new, turned.replies.1)

      tidy : IsTidy platform wire w.published own conversation_of b.system
      tidy =
          grown-IsTidy platform wire _ _ b.replied own conversation_of b.system turned.grown
            (λ d g m.
              if-holds (Memᴰ g) (c == d)
                (λ here.
                  Memᴰ.append_left _
                    (subst (λ e. Memᴰ g (b.replied e)) (sym ((==_iff c d).0 here)) m))
                (λ _. m))
            h.tidy

      streamed : All (IsAccounted platform wire w.published own c (conversation_of c)) w.sent
      streamed =
          subst (All (IsAccounted platform wire w.published own c (conversation_of c)))
            (sym turned.replies.1)
            (All-append _ (b.system.streams c) new (tidy.streamed c) (
              All-members _ new (λ f m. inl (
                All-Memᴰ _ new f turned.replies.2 m,
                subst (Memᴰ f) (sym logged) (Memᴰ.append_right (b.replied c) m),
              ))))

  take_turn-IsSettled :
      (ready : Bool) (c : WebSocket) (p : Progress) (turn : Chat Progress) (b : Backend)
      → (let (r, w) = turn (world c b) in Turned (conversation_of c) (user_of c) p (world c b) r w)
      → IsSettled b
      → IsSettled (take_turn ready c turn b)
  take_turn-IsSettled true c p turn b turned h =
      turn-IsSettled c p (turn (world c b)).0 (turn (world c b)).1 b turned h
  take_turn-IsSettled false c p turn b turned h = h

  -- What Redis delivers to a task was published for its conversation.
  delivered-IsPublished :
      (a : Action) (b : Backend) (t : Task) (raw : Raw) (outcome : WebSocket → SendOutcome)
      → IsAllowed platform wire around user_of (fan_out a) b
      → a ≡ listener t (received raw) outcome
      → IsPublished platform wire b.published (b.system.pubsub.states t).conversation_id raw
  delivered-IsPublished a b t raw outcome allowed e =
      let i = (b.system.pubsub.states t).conversation_id in
      let (j, f, member, channel, text) =
        subst (λ a'. IsAllowed platform wire around user_of (fan_out a') b) e allowed in
      let same = conversation_channel-apart platform wire i j faithful channel in
      (f, subst (λ k. Memᴰ (k, f) b.published) same member, text)

  proceed-IsSettled :
      (x : Step) (b : Backend)
      → IsAllowed platform wire around user_of x b
      → IsSettled b
      → IsSettled (proceed platform wire around user_of x b)
  unfolding proceed
  proceed-IsSettled (fan_out a) b allowed h = record {
    backed = h.backed;
    authored = h.authored;
    ordered = h.ordered;
    tidy =
        perform-IsTidy platform wire faithful b.published b.replied conversation_of a b.system
          (λ t raw outcome. delivered-IsPublished a b t raw outcome allowed) h.tidy;
    in_hand = h.in_hand;
  }
  proceed-IsSettled (receiving c r) b allowed h = rw (h.tidy.named c) (
      if-holds IsSettled (is_idle (b.progress c))
        (λ _.
          take_turn-IsSettled (is_serving (b.system.clients c).phase) c idle
            (receive platform (around c) (conversation_of c) (user_of c) r) b
            (receive-Turned platform (around c) (conversation_of c) (user_of c) (quiet c) r
              (world c b))
            h)
        (λ _. h))
  proceed-IsSettled (resuming c) b allowed h = rw (h.tidy.named c) (
      take_turn-IsSettled (is_serving (b.system.clients c).phase) c (b.progress c)
        (resume platform (around c) (conversation_of c) (user_of c) (b.progress c)) b
        (resume-Turned platform (around c) (conversation_of c) (user_of c) (quiet c) (b.progress c)
          (world c b) (h.in_hand c))
        h)
  proceed-IsSettled (elsewhere t) b allowed h =
      let kept =
        λ (x : Uuid × Outbound). kept-Backed b.store.committed.messages t.messages x allowed in
      record {
        backed = All-imp _ _ b.published kept h.backed;
        authored = h.authored;
        ordered = h.ordered;
        tidy = h.tidy;
        in_hand =
            λ c. kept-InHand _ _ b.published _ _ _ (b.progress c) kept (λ y m. m) (h.in_hand c);
      }

  pub reachable-IsSettled :
      (b : Backend) → Reachable platform wire around user_of conversation_of b → IsSettled b
  reachable-IsSettled _ (opened s) = record {
    backed = tt;
    authored = λ x m. absurd (Memᴰ.not-nil m);
    ordered = tt;
    tidy = fresh-IsTidy platform wire [] (λ c. []) conversation_of;
    in_hand = λ c. tt;
  }
  reachable-IsSettled _ (stepped {b} x r allowed) =
      proceed-IsSettled x b allowed (reachable-IsSettled b r)
