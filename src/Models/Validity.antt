-- ===== src/Models/Validity.antt =====
-- The constraints of app/models as an invariant of the tables, and lemmas on its lists.
pub mod Writes
use real_time_ai_chat_backen.Base.{
  ℕ, ◌≡◌, refl, Bool, true, false, not, Option, some, none, List, [], ◌∷◌, ◌++◌, map, arith, ◌==◌,
  str_eq, eq_iff, find, filter, All, is_some, if◌then◌else◌,
}
use real_time_ai_chat_backen.Errors.{ok}
use real_time_ai_chat_backen.Models.{
  Uuid, Time, User, Conversation, Message, Tables, Write, insert_user, insert_conversation,
  insert_message, set_title, delete_conversation, user_by_id, user_by_email, conversation_by_id,
  message_by_id, retitle, sender_exists, apply_write, check_write,
}

-- No two elements of the list are the same by the test.
abbrev pub Distinct : {A : Type 0} → (A → A → Bool) → List A → Type 0
Distinct same [] = Unit
Distinct same (x ∷ xs) = (find (same x) xs ≡ none) × Distinct same xs

abbrev pub same_user : User → User → Bool
same_user u v = v.id == u.id

abbrev pub same_email : User → User → Bool
same_email u v = str_eq v.email u.email

abbrev pub same_conversation : Conversation → Conversation → Bool
same_conversation c d = d.id == c.id

abbrev pub same_message : Message → Message → Bool
same_message m n = n.id == m.id

abbrev pub HasOwner : List User → Conversation → Type 0
HasOwner us c = is_some (user_by_id c.owner_id us) ≡ true

abbrev pub HasParents : List User → List Conversation → Message → Type 0
HasParents us cs m =
    (is_some (conversation_by_id m.conversation_id cs) ≡ true)
    × (sender_exists m.sender_id us ≡ true)

-- The primary keys and the emails are unique, and every foreign key refers to a row.
pub record IsValid (t : Tables) : Type 0 where
  pub user_ids : Distinct same_user t.users
  pub emails : Distinct same_email t.users
  pub conversation_ids : Distinct same_conversation t.conversations
  pub message_ids : Distinct same_message t.messages
  pub owners : All (HasOwner t.users) t.conversations
  pub parents : All (HasParents t.users t.conversations) t.messages

module _ {A : Type 0} where
  pub find-append_some :
      (p : A → Bool) (xs ys : List A)
      → is_some (find p xs) ≡ true
      → is_some (find p (xs ++ ys)) ≡ true
  find-append_some p [] ys h = absurd (cc)
  find-append_some p (x ∷ xs) ys h = ground (arith, find-append_some p xs ys)

  find-snoc_none :
      (p : A → Bool) (xs : List A) (y : A)
      → find p xs ≡ none
      → p y ≡ false
      → find p (xs ++ y ∷ []) ≡ none
  find-snoc_none p [] y h k = ground arith
  find-snoc_none p (x ∷ xs) y h k = ground (arith, find-snoc_none p xs y)

  pub find-filter-none :
      (p q : A → Bool) (xs : List A) → find p xs ≡ none → find p (filter q xs) ≡ none
  find-filter-none p q [] h = refl
  find-filter-none p q (x ∷ xs) h = ground (arith, find-filter-none p q xs)

  pub Distinct-filter :
      (same : A → A → Bool) (q : A → Bool) (xs : List A)
      → Distinct same xs
      → Distinct same (filter q xs)
  Distinct-filter same q [] h = tt
  Distinct-filter same q (x ∷ xs) h =
      ground (arith, Distinct-filter same q xs h.1, find-filter-none (same x) q xs h.0)

  module _ (same : A → A → Bool) (same_comm : (x y : A) → same x y ≡ same y x) where
    pub Distinct-snoc :
        (xs : List A) (y : A)
        → Distinct same xs
        → is_some (find (same y) xs) ≡ false
        → Distinct same (xs ++ y ∷ [])
    Distinct-snoc [] y d h = (refl, tt)
    Distinct-snoc (x ∷ xs) y d h =
        ground (arith, same_comm x y, find-snoc_none (same x) xs y, Distinct-snoc xs y d.1)

pub All-snoc {κ} :
    {A : Type 0} (P : A → Type κ) (xs : List A) (y : A) → All P xs → P y → All P (xs ++ y ∷ [])
All-snoc P [] y h k = (k, tt)
All-snoc P (x ∷ xs) y h k = (h.0, All-snoc P xs y h.1 k)

pub All-imp {κ μ} :
    {A : Type 0} (P : A → Type κ) (Q : A → Type μ) (xs : List A)
    → ((x : A) → P x → Q x)
    → All P xs
    → All Q xs
All-imp P Q [] f h = tt
All-imp P Q (x ∷ xs) f h = (f x h.0, All-imp P Q xs f h.1)
