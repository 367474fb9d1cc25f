-- ===== src/Session/Atomic.antt =====
-- Which actions leave the committed tables alone when they raise, where no other session commits.
use real_time_ai_chat_backen.Base.{ℕ, ◌≡◌, refl, ◌∙◌, Bool, Option, List, arith, if◌then◌else◌}
use real_time_ai_chat_backen.Errors.{
  Error, app_error, integrity_error, database_error, runtime_error, value_error, redis_error,
  socket_error, jwt_error, overflow_error, request_validation_error, validation_error, Result, ok,
  err,
}
use real_time_ai_chat_backen.Models.{Tables, Write}
use real_time_ai_chat_backen.Session.{
  Server, State, Action, pure, raise, raise_if, lift, gets, ◌>>=◌, continue, on_integrity,
  except_integrity, write, modify, rollback, statement, select, select_page, flush, commit,
  read_clock, refresh,
}
use real_time_ai_chat_backen.Session.Keeps.{
  Keeps, Keeps-pure, Keeps-raise, Keeps-gets, Keeps-lift, Keeps-if, Keeps-bind, Keeps-raise_if,
  keeps_rules,
}

-- No other session commits.
pub record IsQuiet (server : Server) : Type 0 where
  pub others_same : (n : ℕ) (t : Tables) (ws : List Write) → server.others_at n t ws ≡ t

abbrev pub HasCommitted : Tables → State → Type 0
HasCommitted t s = s.committed ≡ t

-- The action never commits.
pub record IsTentative {A : Type 0} (m : Action A) : Type 0 where
  pub keeps : (t : Tables) → Keeps (HasCommitted t) m

-- The action returns, whatever happens.
pub record IsTotal {A : Type 0} (m : Action A) : Type 0 where
  pub returns : (s : State) → (a : A) × ((m s).0 ≡ ok a)

-- If the action raises, nothing is committed.
pub record IsAtomic {A : Type 0} (m : Action A) : Type 0 where
  pub at : (s : State) (e : Error) → (m s).0 ≡ err e → (m s).1.committed ≡ s.committed

-- What a call that began in the state has left: if it raised, the committed tables as they were.
abbrev pub IsCleanFailure : {A : Type 0} → State → Result A × State → Type 0
IsCleanFailure s (ok a, s') = Unit
IsCleanFailure s (err e, s') = s'.committed ≡ s.committed

IsCleanFailure-of :
    {A : Type 0} (s : State) (r : Result A) (s' : State)
    → ((e : Error) → r ≡ err e → s'.committed ≡ s.committed)
    → IsCleanFailure s (r, s')
IsCleanFailure-of s (ok a) s' h = tt
IsCleanFailure-of s (err e) s' h = h e refl

pub IsAtomic-clean : {A : Type 0} (m : Action A) → IsAtomic m → (s : State) → IsCleanFailure s (m s)
IsAtomic-clean m h s = IsCleanFailure-of s (m s).0 (m s).1 (h.at s)

pub IsAtomic-of_tentative : {A : Type 0} (m : Action A) → IsTentative m → IsAtomic m
IsAtomic-of_tentative m k = record { at = λ s e h. (k.keeps s.committed).at s refl }

module _ {A B : Type 0} where
  continue-IsAtomic :
      (r : Result A) (f : A → Action B) (s : State) (e : Error) (t : Tables)
      → s.committed ≡ t
      → ((a : A) → IsAtomic (f a))
      → (continue r f s).0 ≡ err e
      → (continue r f s).1.committed ≡ t
  continue-IsAtomic (ok a) f s e t h k q = (k a).at s e q ∙ h
  continue-IsAtomic (err x) f s e t h k q = h

  pub IsAtomic-bind :
      (m : Action A) (f : A → Action B)
      → IsTentative m
      → ((a : A) → IsAtomic (f a))
      → IsAtomic (m >>= f)
  unfolding ◌>>=◌
  IsAtomic-bind m f km kf = record {
    at = λ s e q.
        let (r, s') = m s in
        continue-IsAtomic r f s' e s.committed ((km.keeps s.committed).at s refl) kf q;
  }

  continue_total-IsAtomic :
      (r : Result A) (f : A → Action B) (s : State) (e : Error) (t : Tables)
      → ((x : Error) → r ≡ err x → s.committed ≡ t)
      → ((a : A) → IsTotal (f a))
      → (continue r f s).0 ≡ err e
      → (continue r f s).1.committed ≡ t
  continue_total-IsAtomic (ok a) f s e t h k q = let (b, p) = (k a).returns s in absurd (cc)
  continue_total-IsAtomic (err x) f s e t h k q = h x refl

  -- What follows a commit must not raise.
  pub IsAtomic-then_total :
      (m : Action A) (f : A → Action B)
      → IsAtomic m
      → ((a : A) → IsTotal (f a))
      → IsAtomic (m >>= f)
  unfolding ◌>>=◌
  IsAtomic-then_total m f km kf = record {
    at = λ s e q.
        let (r, s') = m s in continue_total-IsAtomic r f s' e s.committed (λ x p. km.at s x p) kf q;
  }

module _ {A : Type 0} where
  pub IsTentative-pure : (a : A) → IsTentative (pure a)
  IsTentative-pure a = record { keeps = λ t. Keeps-pure a }

  pub IsTentative-raise : (e : Error) → IsTentative (raise {A = A} e)
  IsTentative-raise e = record { keeps = λ t. Keeps-raise e }

  pub IsTentative-gets : (f : State → A) → IsTentative (gets f)
  IsTentative-gets f = record { keeps = λ t. Keeps-gets f }

  pub IsTentative-lift : (r : Result A) → IsTentative (lift r)
  IsTentative-lift r = record { keeps = λ t. Keeps-lift r }

  pub IsTentative-if :
      (b : Bool) (m n : Action A) → IsTentative m → IsTentative n → IsTentative (if b then m else n)
  IsTentative-if b m n km kn = record { keeps = λ t. Keeps-if b m n (km.keeps t) (kn.keeps t) }

  pub IsTentative-bind :
      {B : Type 0} (m : Action B) (f : B → Action A)
      → IsTentative m
      → ((b : B) → IsTentative (f b))
      → IsTentative (m >>= f)
  IsTentative-bind m f km kf = record {
    keeps = λ t. Keeps-bind m f (km.keeps t) (λ b. (kf b).keeps t);
  }

  on_integrity-IsAtomic :
      (handler : Action A) (r : Result A) (s : State) (e : Error) (t : Tables)
      → ((x : Error) → r ≡ err x → s.committed ≡ t)
      → IsAtomic handler
      → (on_integrity handler (r, s)).0 ≡ err e
      → (on_integrity handler (r, s)).1.committed ≡ t
  on_integrity-IsAtomic handler (ok a) s e t h k q = absurd (cc)
  on_integrity-IsAtomic handler (err integrity_error) s e t h k q =
      k.at s e q ∙ h integrity_error refl
  on_integrity-IsAtomic handler (err (app_error x)) s e t h k q = h (app_error x) refl
  on_integrity-IsAtomic handler (err database_error) s e t h k q = h database_error refl
  on_integrity-IsAtomic handler (err (runtime_error x)) s e t h k q = h (runtime_error x) refl
  on_integrity-IsAtomic handler (err (value_error x)) s e t h k q = h (value_error x) refl
  on_integrity-IsAtomic handler (err redis_error) s e t h k q = h redis_error refl
  on_integrity-IsAtomic handler (err socket_error) s e t h k q = h socket_error refl
  on_integrity-IsAtomic handler (err jwt_error) s e t h k q = h jwt_error refl
  on_integrity-IsAtomic handler (err overflow_error) s e t h k q = h overflow_error refl
  on_integrity-IsAtomic handler (err (request_validation_error x)) s e t h k q =
      h (request_validation_error x) refl
  on_integrity-IsAtomic handler (err (validation_error x)) s e t h k q = h (validation_error x) refl

  pub IsAtomic-except_integrity :
      (body handler : Action A)
      → IsAtomic body
      → IsAtomic handler
      → IsAtomic (except_integrity body handler)
  unfolding except_integrity
  IsAtomic-except_integrity body handler kb kh = record {
    at = λ s e q.
        let (r, s') = body s in
        on_integrity-IsAtomic handler r s' e s.committed (λ x p. kb.at s x p) kh q;
  }

pub IsTentative-raise_if : (b : Bool) (e : Error) → IsTentative (raise_if b e)
IsTentative-raise_if b e = record { keeps = λ t. Keeps-raise_if b e }

pub ruleset tentative_rules = (
  IsTentative-pure, IsTentative-raise, IsTentative-gets, IsTentative-lift, IsTentative-if,
  IsTentative-bind, IsTentative-raise_if, IsAtomic-of_tentative, IsAtomic-bind,
)

pub IsTotal-pure : {A : Type 0} (a : A) → IsTotal (pure a)
unfolding pure
IsTotal-pure a = record { returns = λ s. (a, refl) }

module _ (server : Server) (quiet : IsQuiet server) where
  statement-Keeps : (t : Tables) → Keeps (HasCommitted t) (statement server)
  unfolding statement
  statement-Keeps t = record { at = λ s h. quiet.others_same s.tick s.committed s.pending ∙ h }

  write-Keeps : (t : Tables) (w : Write) → Keeps (HasCommitted t) (write w)
  unfolding write
  write-Keeps t w = record { at = λ s h. ground arith }

  select-Keeps :
      {A : Type 0} (t : Tables) (f : Tables → A) → Keeps (HasCommitted t) (select server f)
  unfolding select
  select-Keeps t f = search (keeps_rules, statement-Keeps)

  pub select-IsTentative : {A : Type 0} (f : Tables → A) → IsTentative (select server f)
  select-IsTentative f = record { keeps = λ t. select-Keeps t f }

  pub select_page-IsTentative :
      {A : Type 0} (order : ℕ → List A → List A) (limit offset : ℕ) (f : Tables → List A)
      → IsTentative (select_page server order limit offset f)
  unfolding select_page
  select_page-IsTentative order limit offset f = record {
    keeps = λ t. search (keeps_rules, select-Keeps);
  }

  pub flush-IsTentative : (w : Write) → IsTentative (flush server w)
  unfolding flush
  flush-IsTentative w = record { keeps = λ t. search (keeps_rules, statement-Keeps, write-Keeps) }

  pub refresh-IsTentative : {A : Type 0} (f : Tables → Option A) → IsTentative (refresh server f)
  unfolding refresh
  refresh-IsTentative f = record { keeps = λ t. search (keeps_rules, select-Keeps) }

  pub commit-IsAtomic : IsAtomic (commit server)
  unfolding commit statement modify ◌>>=◌
  commit-IsAtomic = record {
    at = λ s e q. ground (arith, quiet.others_same s.tick s.committed s.pending);
  }

pub rollback-IsTentative : IsTentative rollback
unfolding rollback
rollback-IsTentative = record { keeps = λ t. record { at = λ s h. h } }

pub read_clock-IsTentative : (server : Server) → IsTentative (read_clock server)
unfolding read_clock
read_clock-IsTentative server = record { keeps = λ t. record { at = λ s h. h } }
