-- ===== src/Base/Dictionaries.antt =====
-- A Python `dict` with numbers as keys, as an association list in the order of insertion.
use Prim.Native.Nat.{ℕ}
use mathlib.Core.Path.{◌≡◌, refl}
use mathlib.Core.Option.{Option, none, some}
use mathlib.Core.List.{List, [], ◌∷◌}
use native.Mathlib.Omega.{arith}
use real_time_ai_chat_backen.Base.Tests.{◌==◌, if◌then◌else◌}

abbrev pub Dict : Type 0 → Type 0
Dict A = List (ℕ × A)

module _ {A : Type 0} where
  -- `d.get(i)`
  abbrev pub entry : ℕ → Dict A → Option A
  entry i [] = none
  entry i ((j, a) ∷ d) = if j == i then some a else entry i d

  -- `d[i] = a`
  abbrev pub set_entry : ℕ → A → Dict A → Dict A
  set_entry i a [] = (i, a) ∷ []
  set_entry i a ((j, b) ∷ d) = if j == i then (j, a) ∷ d else (j, b) ∷ set_entry i a d

  -- `d.pop(i, None)`
  abbrev pub pop_entry : ℕ → Dict A → Dict A
  pop_entry i [] = []
  pop_entry i ((j, b) ∷ d) = if j == i then pop_entry i d else (j, b) ∷ pop_entry i d

  pub entry-set :
      (i j : ℕ) (a : A) (d : Dict A)
      → entry j (set_entry i a d) ≡ (if i == j then some a else entry j d)
  entry-set i j a [] = refl
  entry-set i j a ((k, b) ∷ d) = ground (arith, entry-set i j a d)

  pub entry-pop :
      (i j : ℕ) (d : Dict A) → entry j (pop_entry i d) ≡ (if i == j then none else entry j d)
  entry-pop i j [] = ground arith
  entry-pop i j ((k, b) ∷ d) = ground (arith, entry-pop i j d)
