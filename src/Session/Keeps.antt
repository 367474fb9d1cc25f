-- ===== src/Session/Keeps.antt =====
-- Invariants of actions: one rule for each way to build an action of `Session`.
use real_time_ai_chat_backen.Base.{◌≢◌, refl, Bool, true, false, Option, none, some, if◌then◌else◌}
use real_time_ai_chat_backen.Errors.{
  Error, app_error, integrity_error, database_error, runtime_error, value_error, redis_error,
  request_validation_error, validation_error, socket_error, jwt_error, overflow_error, Result, ok,
  err,
}
use real_time_ai_chat_backen.Session.{
  State, Action, pure, raise, gets, lift, ◌>>=◌, raise_if, require, except_integrity, on_integrity,
  continue,
}

-- The action keeps the property of the state, whether it returns or raises.
pub record Keeps {A : Type 0} (P : State → Type 0) (m : Action A) : Type 0 where
  pub at : (s : State) → P s → P (m s).1

module _ {A : Type 0} {P : State → Type 0} where
  -- An action that only looks at the state.
  looks-Keeps : (look : State → Result A) → Keeps P (λ state. (look state, state))
  looks-Keeps look = record { at = λ state kept. kept }

  pub Keeps-gets : (f : State → A) → Keeps P (gets f)
  unfolding gets
  Keeps-gets f = looks-Keeps (λ state. ok (f state))

  pub Keeps-lift : (r : Result A) → Keeps P (lift r)
  unfolding lift
  Keeps-lift r = looks-Keeps (λ _. r)

  pub Keeps-raise : (e : Error) → Keeps P (raise {A = A} e)
  unfolding raise
  Keeps-raise e = looks-Keeps (λ _. err e)

  pub Keeps-pure : (a : A) → Keeps P (pure a)
  unfolding pure
  Keeps-pure a = looks-Keeps (λ _. ok a)

  pub Keeps-require : (o : Option A) (e : Error) → Keeps P (require o e)
  unfolding require pure raise
  Keeps-require none e = looks-Keeps (λ _. err e)
  Keeps-require (some a) e = looks-Keeps (λ _. ok a)

  pub Keeps-if :
      (test : Bool) (then_do else_do : Action A)
      → Keeps P then_do
      → Keeps P else_do
      → Keeps P (if test then then_do else else_do)
  Keeps-if true then_do else_do kept _ = kept
  Keeps-if false then_do else_do _ kept = kept

  on_integrity-Keeps :
      (handler : Action A) (r : Result A) (s : State)
      → Keeps P handler
      → P s
      → P (on_integrity handler (r, s)).1
  on_integrity-Keeps handler (ok a) s k h = h
  on_integrity-Keeps handler (err integrity_error) s k h = k.at s h
  on_integrity-Keeps handler (err (app_error e)) s k h = h
  on_integrity-Keeps handler (err database_error) s k h = h
  on_integrity-Keeps handler (err (runtime_error t)) s k h = h
  on_integrity-Keeps handler (err (value_error t)) s k h = h
  on_integrity-Keeps handler (err redis_error) s k h = h
  on_integrity-Keeps handler (err (request_validation_error x)) s k h = h
  on_integrity-Keeps handler (err (validation_error x)) s k h = h
  on_integrity-Keeps handler (err socket_error) s k h = h
  on_integrity-Keeps handler (err jwt_error) s k h = h
  on_integrity-Keeps handler (err overflow_error) s k h = h

  pub Keeps-except_integrity :
      (body handler : Action A)
      → Keeps P body
      → Keeps P handler
      → Keeps P (except_integrity body handler)
  unfolding except_integrity
  Keeps-except_integrity body handler kb kh = record {
    at = λ s h. let (r, s') = body s in on_integrity-Keeps handler r s' kh (kb.at s h);
  }

pub Keeps-raise_if : {P : State → Type 0} (b : Bool) (e : Error) → Keeps P (raise_if b e)
unfolding raise_if
Keeps-raise_if b e = record { at = λ s h. h }

module _ {A B : Type 0} {P : State → Type 0} where
  continue-Keeps :
      (r : Result A) (f : A → Action B) (s : State)
      → ((a : A) → Keeps P (f a))
      → P s
      → P (continue r f s).1
  continue-Keeps (ok a) f s k h = (k a).at s h
  continue-Keeps (err e) f s k h = h

  pub Keeps-bind :
      (action : Action A) (next : A → Action B)
      → Keeps P action
      → ((result : A) → Keeps P (next result))
      → Keeps P (action >>= next)
  unfolding ◌>>=◌
  Keeps-bind action next first rest = record {
    at = λ state kept.
        let (result, state') = action state in
        continue-Keeps result next state' rest (first.at state kept);
  }

-- A block whose first result is an error does not return.
pub continue-refused :
    {A B : Type 0} (r : Result A) (f : A → Action B) (s : State) (b : B)
    → ((a : A) → r ≢ ok a)
    → (continue r f s).0 ≢ ok b
continue-refused (ok a) f s b h q = h a refl
continue-refused (err e) f s b h q = cc

pub ruleset keeps_rules = (
  Keeps-pure, Keeps-raise, Keeps-gets, Keeps-lift, Keeps-require, Keeps-if, Keeps-except_integrity,
  Keeps-raise_if, Keeps-bind,
)
