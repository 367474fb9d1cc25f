-- ===== src/WebSocket/Backend/Single.antt =====
-- What a turn of a message loop of app/services/chat.py does to the messages that are published and
-- to those that are about to be.
use mathlib.Core.List.{Memᴰ}
use mathlib.Core.List.Memᴰ
use mathlib.Core.Path.{subst}
use real_time_ai_chat_backen.Base.{
  ◌≡◌, ◌∙◌, sym, ◌⊎◌, inl, inr, some, List, arith, ◌==◌, if-holds, ==_iff,
}
use real_time_ai_chat_backen.Errors.{Result, ok, err}
use real_time_ai_chat_backen.Models.{Uuid, Message}
use real_time_ai_chat_backen.Platform.{Platform}
use real_time_ai_chat_backen.Session.Atomic.{IsQuiet}
use real_time_ai_chat_backen.WebSocket.Manager.{WebSocket}
use real_time_ai_chat_backen.WebSocket.PubSub.{update}
use real_time_ai_chat_backen.WebSocket.Protocol.{Outbound}
use real_time_ai_chat_backen.WebSocket.Protocol.Wire.{Wire, IsFaithful}
use real_time_ai_chat_backen.WebSocket.Chat.{World, Surroundings}
use real_time_ai_chat_backen.WebSocket.Chat.Backed.{Backed}
use real_time_ai_chat_backen.WebSocket.Chat.Turns.{
  Progress, idle, publishing, replying, publishing_reply,
}
use real_time_ai_chat_backen.WebSocket.Backend.{Backend, world, next_progress}
use real_time_ai_chat_backen.WebSocket.Backend.Once.{
  carried, carried_after, Apart, IsUnrepeated, IsUnrepeated-snoc,
}
use real_time_ai_chat_backen.WebSocket.Backend.Rows.{All-Memᴰ}
use real_time_ai_chat_backen.WebSocket.Backend.Turns.{InHand, Turned}
use real_time_ai_chat_backen.WebSocket.Backend.Settled.{IsSettled}

-- No message is published twice, none that is published is still to be published, and no two loops
-- are about to publish the same one.
pub record IsSingle (published : List (Uuid × Outbound)) (progress : WebSocket → Progress)
    : Type 0 where
  pub unrepeated : IsUnrepeated published
  pub pending :
      (c : WebSocket) (f : Outbound)
      → carried (progress c) ≡ some f
      → (x : Uuid × Outbound) → Memᴰ x published
      → Apart f x.1
  pub separate :
      (c d : WebSocket) (f g : Outbound)
      → ¬ (c ≡ d)
      → carried (progress c) ≡ some f
      → carried (progress d) ≡ some g
      → Apart f g

carried-Backed :
    (ms : List Message) (published : List (Uuid × Outbound)) (i user_id : Uuid) (p : Progress)
    (f : Outbound)
    → InHand ms published i user_id p
    → carried p ≡ some f
    → Backed ms (i, f)
carried-Backed ms published i user_id idle f h e = absurd (cc)
carried-Backed ms published i user_id (publishing content g) f h e =
    subst (λ k. Backed ms (i, k)) (cc) h.0
carried-Backed ms published i user_id (replying content) f h e = absurd (cc)
carried-Backed ms published i user_id (publishing_reply g) f h e =
    subst (λ k. Backed ms (i, k)) (cc) h.0

next-carried :
    (r : Result Progress) (f : Outbound)
    → carried (next_progress r) ≡ some f
    → carried_after r ≡ some f
next-carried (ok p) f h = h
next-carried (err e) f h = absurd (cc)

-- A frame that is still to be published after a turn is the one that the turn has left, or that of
-- another loop.
update-carried :
    (c : WebSocket) (r : Result Progress) (progress : WebSocket → Progress) (d : WebSocket)
    (f : Outbound)
    → carried (update progress c (next_progress r) d) ≡ some f
    → ((c ≡ d) × (carried_after r ≡ some f)) ⊎ (¬ (c ≡ d) × (carried (progress d) ≡ some f))
update-carried c r progress d f =
    if-holds
      (λ p.
        carried p ≡ some f
        → ((c ≡ d) × (carried_after r ≡ some f)) ⊎ (¬ (c ≡ d) × (carried (progress d) ≡ some f)))
      (c == d) (λ here h. inl ((==_iff c d).0 here, next-carried r f h))
      (λ there h. inr (λ same. ground (arith, (==_iff c d).1 same), h))

module _ (platform : Platform) (wire : Wire) (faithful : IsFaithful platform wire)
    (around : WebSocket → Surroundings) (quiet : (c : WebSocket) → IsQuiet (around c).server)
    (user_of conversation_of : WebSocket → Uuid) where
  -- A turn of a client's loop, from a state of which the invariants hold.
  module _ (c : WebSocket) (r : Result Progress) (w : World) (b : Backend)
      (turned : Turned (conversation_of c) (user_of c) (b.progress c) (world c b) r w)
      (settled : IsSettled platform wire faithful around quiet user_of conversation_of b)
      (single : IsSingle b.published b.progress) where
    still_carried-Backed :
        (d : WebSocket) (f : Outbound)
        → carried (b.progress d) ≡ some f
        → Backed b.store.committed.messages (conversation_of d, f)
    still_carried-Backed d f =
        carried-Backed _ b.published _ (user_of d) (b.progress d) f (settled.in_hand d)

    -- What has been published had been, or was in the hand of this loop.
    published_before :
        (x : Uuid × Outbound)
        → Memᴰ x w.published
        → Memᴰ x b.published
          ⊎ ((f : Outbound) × (carried (b.progress c) ≡ some f) × (x ≡ (conversation_of c, f)))
    published_before x m = elim turned.adds [
      | inl (same, _) ↦ inl (subst (Memᴰ x) same m)
      | inr (f, hand, added, _) ↦ elim (Memᴰ.append_cases b.published (subst (Memᴰ x) added m)) [
        | inl earlier ↦ inl earlier
        | inr new ↦ inr (f, hand, Memᴰ.eq_of_singleton new)
      ]
    ]

    after_turn-IsUnrepeated : IsUnrepeated w.published
    after_turn-IsUnrepeated = elim turned.adds [
      | inl (same, _) ↦ subst IsUnrepeated (sym same) single.unrepeated
      | inr (f, hand, added, _) ↦ subst IsUnrepeated (sym added) (
          IsUnrepeated-snoc b.published (conversation_of c, f) single.unrepeated
            (single.pending c f hand))
    ]

    -- What the turn leaves to be published is new.
    left-Apart :
        (f : Outbound) (x : Uuid × Outbound)
        → carried_after r ≡ some f
        → Memᴰ x w.published
        → Apart f x.1
    left-Apart f x e m = elim (published_before x m) [
      | inl earlier ↦ turned.fresh f e x (All-Memᴰ _ b.published x settled.backed earlier)
      | inr (g, hand, same) ↦
          subst (λ (y : Uuid × Outbound). Apart f y.1) (sym same)
            (turned.fresh f e (conversation_of c, g) (still_carried-Backed c g hand))
    ]

    other-Apart :
        (d : WebSocket) (f : Outbound) (x : Uuid × Outbound)
        → ¬ (c ≡ d)
        → carried (b.progress d) ≡ some f
        → Memᴰ x w.published
        → Apart f x.1
    other-Apart d f x other e m = elim (published_before x m) [
      | inl earlier ↦ single.pending d f e x earlier
      | inr (g, hand, same) ↦
          subst (λ (y : Uuid × Outbound). Apart f y.1) (sym same)
            (single.separate d c f g (λ h. other (sym h)) e hand)
    ]

    pub turn-IsSingle : IsSingle w.published (update b.progress c (next_progress r))
    turn-IsSingle = record {
      unrepeated = after_turn-IsUnrepeated;
      pending = λ d f e x m. elim (update-carried c r b.progress d f e) [
        | inl (here, left) ↦ left-Apart f x left m
        | inr (other, still) ↦ other-Apart d f x other still m
      ];
      separate = λ d d' f g apart e e'. elim (update-carried c r b.progress d f e) [
        | inl (here, left) ↦ elim (update-carried c r b.progress d' g e') [
          | inl (there, _) ↦ absurd (apart (sym here ∙ there))
          | inr (_, still) ↦
              turned.fresh f left (conversation_of d', g) (still_carried-Backed d' g still)
        ]
        | inr (_, still) ↦ elim (update-carried c r b.progress d' g e') [
          | inl (_, left) ↦ λ same.
              turned.fresh g left (conversation_of d, f) (still_carried-Backed d f still) (sym same)
          | inr (_, still') ↦ single.separate d d' f g apart still still'
        ]
      ];
    }
