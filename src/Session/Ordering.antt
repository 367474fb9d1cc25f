-- ===== src/Session/Ordering.antt =====
-- ORDER BY of one column, in the two directions that `asc()` and `desc()` of SQLAlchemy name. Rows
-- that tie keep the order in which they were read, which is any.
use mathlib.Core.List.{Perm}
use mathlib.Core.List.Perm
use real_time_ai_chat_backen.Base.{
  ◌≡◌, Bool, true, false, List, [], ◌∷◌, arith, leb, All, if◌then◌else◌, Bool-cases, inl, inr,
}
use real_time_ai_chat_backen.Models.{Time}
use real_time_ai_chat_backen.Models.Validity.{All-imp}

pub data Direction : Type 0 where
  asc desc : Direction

-- Whether a row with the first key may stand before a row with the second.
abbrev pub before : Direction → Time → Time → Bool
before asc m n = leb m n
before desc m n = leb n m

before_total : (d : Direction) (m n : Time) → before d m n ≡ false → before d n m ≡ true
before_total asc m n h = ground arith
before_total desc m n h = ground arith

before_trans :
    (d : Direction) (m n o : Time) → before d m n ≡ true → before d n o ≡ true → before d m o ≡ true
before_trans asc m n o h k = ground arith
before_trans desc m n o h k = ground arith

module _ {A : Type 0} (key : A → Time) (direction : Direction) where
  abbrev may_precede : A → A → Bool
  may_precede x y = before direction (key x) (key y)

  abbrev insert : A → List A → List A
  insert x [] = x ∷ []
  insert x (y ∷ ys) = if may_precede x y then x ∷ y ∷ ys else y ∷ insert x ys

  unfoldable pub order_by : List A → List A
  order_by [] = []
  order_by (x ∷ xs) = insert x (order_by xs)

  -- Each row may precede all the later ones.
  abbrev pub IsOrdered : List A → Type 0
  IsOrdered [] = Unit
  IsOrdered (x ∷ xs) = All (λ y. may_precede x y ≡ true) xs × IsOrdered xs

  insert-Perm : (x : A) (ys : List A) → Perm (insert x ys) (x ∷ ys)
  insert-Perm x [] = Perm.rfl
  insert-Perm x (y ∷ ys) = elim (Bool-cases (may_precede x y)) [
    | inl first ↦ rw first Perm.rfl
    | inr later ↦ rw later (Perm.trans (Perm.cons y (insert-Perm x ys)) (Perm.swap x y ys))
  ]

  pub order_by-Perm : (xs : List A) → Perm (order_by xs) xs
  unfolding order_by
  order_by-Perm [] = Perm.rfl
  order_by-Perm (x ∷ xs) = Perm.trans (insert-Perm x (order_by xs)) (Perm.cons x (order_by-Perm xs))

  All-insert : (P : A → Type 0) (x : A) (ys : List A) → P x → All P ys → All P (insert x ys)
  All-insert P x [] h k = (h, tt)
  All-insert P x (y ∷ ys) h k = elim (Bool-cases (may_precede x y)) [
    | inl first ↦ rw first (h, k)
    | inr later ↦ rw later (k.0, All-insert P x ys h k.1)
  ]

  insert-IsOrdered : (x : A) (ys : List A) → IsOrdered ys → IsOrdered (insert x ys)
  insert-IsOrdered x [] h = (tt, tt)
  insert-IsOrdered x (y ∷ ys) h = elim (Bool-cases (may_precede x y)) [
    | inl first ↦ rw first (
      (
        first,
        All-imp (λ z. may_precede y z ≡ true) (λ z. may_precede x z ≡ true) ys
            (λ z. before_trans direction (key x) (key y) (key z) first) h.0,
      ),
      h,
    )
    | inr later ↦ rw later (
      All-insert (λ z. may_precede y z ≡ true) x ys (before_total direction (key x) (key y) later)
          h.0,
      insert-IsOrdered x ys h.1,
    )
  ]

  pub order_by-IsOrdered : (xs : List A) → IsOrdered (order_by xs)
  unfolding order_by
  order_by-IsOrdered [] = tt
  order_by-IsOrdered (x ∷ xs) = insert-IsOrdered x (order_by xs) (order_by-IsOrdered xs)
