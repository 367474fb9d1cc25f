-- ===== src/WebSocket/Manager/Invariant.antt =====
-- The invariant of the dictionary of `ConnectionManager` in app/websocket/manager.py: no empty set,
-- and no key and no socket twice.
use real_time_ai_chat_backen.Base.{
  ◌≡◌, ◌≢◌, refl, Bool, true, false, none, some, List, [], ◌∷◌, arith, ◌==◌, if◌then◌else◌,
  Option-cases, inl, inr,
}
use real_time_ai_chat_backen.Models.{Uuid}
use real_time_ai_chat_backen.WebSocket.Manager.{
  WebSocket, Connections, contains, add, discard, get, sockets, insert, pop, replace, store_or_pop,
  remove_connection, connect,
}

-- A set of sockets: none twice.
abbrev pub IsSocketSet : List WebSocket → Type 0
IsSocketSet [] = Unit
IsSocketSet (w ∷ ws) = (contains w ws ≡ false) × IsSocketSet ws

abbrev pub IsValid : Connections → Type 0
IsValid [] = Unit
IsValid ((i, ws) ∷ m) = (get i m ≡ none) × (ws ≢ []) × IsSocketSet ws × IsValid m

pub contains-add :
    (v w : WebSocket) (ws : List WebSocket)
    → contains v (add w ws) ≡ (if w == v then true else contains v ws)
contains-add v w [] = refl
contains-add v w (x ∷ ws) = ground (arith, contains-add v w ws)

add-IsSocketSet : (w : WebSocket) (ws : List WebSocket) → IsSocketSet ws → IsSocketSet (add w ws)
add-IsSocketSet w [] h = (refl, tt)
add-IsSocketSet w (x ∷ ws) h = ground (arith, add-IsSocketSet w ws h.1, contains-add x w ws)

pub contains-discard :
    (v w : WebSocket) (ws : List WebSocket)
    → IsSocketSet ws
    → contains v (discard w ws) ≡ (if w == v then false else contains v ws)
contains-discard v w [] h = ground arith
contains-discard v w (x ∷ ws) h = ground (arith, contains-discard v w ws h.1)

pub discard-IsSocketSet :
    (w : WebSocket) (ws : List WebSocket) → IsSocketSet ws → IsSocketSet (discard w ws)
discard-IsSocketSet w [] h = tt
discard-IsSocketSet w (x ∷ ws) h =
    ground (arith, discard-IsSocketSet w ws h.1, contains-discard x w ws h.1)

get-insert :
    (i j : Uuid) (w : WebSocket) (m : Connections)
    → get j (insert i w m) ≡ (if i == j then some (add w (sockets i m)) else get j m)
get-insert i j w [] = refl
get-insert i j w (e ∷ m) = ground (arith, get-insert i j w m)

add-ne-nil : (w : WebSocket) (ws : List WebSocket) → add w ws ≢ []
add-ne-nil w [] = ground arith
add-ne-nil w (x ∷ ws) = ground arith

pub insert-IsValid :
    (i : Uuid) (w : WebSocket) (m : Connections) → IsValid m → IsValid (insert i w m)
insert-IsValid i w [] h = ground arith
insert-IsValid i w ((j, ws) ∷ m) h =
    ground (
      arith,
      insert-IsValid i w m h.3,
      get-insert i j w m,
      add-IsSocketSet w ws h.2,
      add-ne-nil w ws,
    )

-- Connecting keeps the dictionary valid, with no empty set, no key twice and no socket twice in a
-- set, whether or not the socket is accepted.
pub connect-IsValid :
    (accepts : WebSocket → Bool) (i : Uuid) (w : WebSocket) (m : Connections)
    → IsValid m
    → IsValid (connect accepts i w m).1
unfolding connect
connect-IsValid accepts i w m h = ground (arith, insert-IsValid i w m h)

pub get-pop :
    (i j : Uuid) (m : Connections)
    → IsValid m
    → get j (pop i m) ≡ (if i == j then none else get j m)
get-pop i j [] h = ground arith
get-pop i j ((k, ws) ∷ m) h = ground (arith, get-pop i j m h.3)

pub pop-IsValid : (i : Uuid) (m : Connections) → IsValid m → IsValid (pop i m)
pop-IsValid i [] h = tt
pop-IsValid i ((k, ws) ∷ m) h = ground (arith, pop-IsValid i m h.3, get-pop i k m h.3)

get-replace :
    (i j : Uuid) (ws vs : List WebSocket) (m : Connections)
    → get i m ≡ some vs
    → get j (replace i ws m) ≡ (if i == j then some ws else get j m)
get-replace i j ws vs [] h = absurd (cc)
get-replace i j ws vs ((k, us) ∷ m) h = ground (arith, get-replace i j ws vs m)

get-replace_ne :
    (i j : Uuid) (ws : List WebSocket) (m : Connections)
    → (i == j) ≡ false
    → get j (replace i ws m) ≡ get j m
get-replace_ne i j ws [] h = refl
get-replace_ne i j ws ((k, us) ∷ m) h = ground (arith, get-replace_ne i j ws m)

replace-IsValid :
    (i : Uuid) (ws : List WebSocket) (m : Connections)
    → ws ≢ []
    → IsSocketSet ws
    → IsValid m
    → IsValid (replace i ws m)
replace-IsValid i ws [] ne d h = tt
replace-IsValid i ws ((k, us) ∷ m) ne d h =
    ground (arith, replace-IsValid i ws m ne d h.3, get-replace_ne i k ws m)

get-IsSocketSet :
    (i : Uuid) (m : Connections) (ws : List WebSocket)
    → IsValid m
    → get i m ≡ some ws
    → IsSocketSet ws × (ws ≢ [])
get-IsSocketSet i [] ws h e = absurd (cc)
get-IsSocketSet i ((k, us) ∷ m) ws h e = ground (arith, get-IsSocketSet i m ws h.3)

-- The abstract view: whether a socket is registered for a conversation.
abbrev pub connected : Uuid → WebSocket → Connections → Bool
connected i w m = contains w (sockets i m)

store_or_pop-IsValid :
    (i : Uuid) (ws : List WebSocket) (m : Connections)
    → IsSocketSet ws
    → IsValid m
    → IsValid (store_or_pop i ws m)
store_or_pop-IsValid i [] m d h = pop-IsValid i m h
store_or_pop-IsValid i (w ∷ ws) m d h = replace-IsValid i (w ∷ ws) m (ground arith) d h

store_or_pop-sockets :
    (i j : Uuid) (ws vs : List WebSocket) (m : Connections)
    → IsValid m
    → get i m ≡ some vs
    → sockets j (store_or_pop i ws m) ≡ (if i == j then ws else sockets j m)
store_or_pop-sockets i j [] vs m h e = ground (arith, get-pop i j m h)
store_or_pop-sockets i j (w ∷ ws) vs m h e = ground (arith, get-replace i j (w ∷ ws) vs m e)

pub remove_connection-IsValid :
    (i : Uuid) (w : WebSocket) (m : Connections) → IsValid m → IsValid (remove_connection i w m)
unfolding remove_connection
remove_connection-IsValid i w m h = elim (Option-cases (get i m)) [
  | inl absent ↦ rw absent h
  | inr (ws, e) ↦ rw e (
      store_or_pop-IsValid i (discard w ws) m
        (discard-IsSocketSet w ws (get-IsSocketSet i m ws h e).0) h)
]

pub connected-remove_connection :
    (i j : Uuid) (w v : WebSocket) (m : Connections)
    → IsValid m
    → connected j v (remove_connection i w m)
      ≡ (if i == j then if w == v then false else connected j v m else connected j v m)
unfolding remove_connection
connected-remove_connection i j w v m h = elim (Option-cases (get i m)) [
  | inl absent ↦ ground arith
  | inr (ws, e) ↦ ground (
    arith,
    store_or_pop-sockets i j (discard w ws) ws m h e,
    contains-discard v w ws (get-IsSocketSet i m ws h e).0,
  )
]

pub connected-insert :
    (i j : Uuid) (w v : WebSocket) (m : Connections)
    → connected j v (insert i w m)
      ≡ (if i == j then if w == v then true else connected j v m else connected j v m)
connected-insert i j w v m = ground (arith, get-insert i j w m, contains-add v w (sockets i m))
