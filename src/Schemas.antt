-- ===== src/Schemas.antt =====
-- app/schemas: the validators with their limits, and the page arithmetic of `PaginationParams`
-- and of the two list responses. A validator returns the cleaned value, or nothing.
pub mod Pages
use real_time_ai_chat_backen.Base.{
  ℕ, ◌+◌, ◌-◌, ◌*◌, ◌/◌, ◌%◌, String, Bool, true, false, not, ◌&&◌, Option, none, some, List, leb,
  ◌==◌, count, is_empty, strip, if◌then◌else◌,
}
use real_time_ai_chat_backen.Platform.{Platform, ℤ, pos, negsuc}

pub record PaginationParams : Type 0 where
  pub page : ℕ
  pub page_size : ℕ

-- The limits of the two fields.
unfoldable pub pagination_params : ℤ → ℤ → Option PaginationParams
pagination_params (pos page) (pos page_size) =
    if leb 1 page && leb 1 page_size && leb page_size 200
    then some (record { page = page; page_size = page_size })
    else none
pagination_params _ _ = none

-- The properties `offset` and `limit`. `page` is at least 1.
unfoldable pub offset : PaginationParams → ℕ
offset p = (p.page - 1) * p.page_size

unfoldable pub limit : PaginationParams → ℕ
limit p = p.page_size

abbrev pub max_of : ℕ → ℕ → ℕ
max_of a b = if leb a b then b else a

-- `-(-total // page_size)`: Python's `//` rounds down, so this rounds up.
unfoldable pub ceil_div : ℕ → ℕ → ℕ
ceil_div total page_size = total / page_size + (if total % page_size == 0 then 0 else 1)

-- A list response; the items are rows of either table.
pub record ListResponse (A : Type 0) : Type 0 where
  pub items : List A
  pub total : ℕ
  pub page : ℕ
  pub page_size : ℕ
  pub pages : ℕ

-- `ConversationListResponse.create` and `MessageListResponse.create`.
unfoldable pub create_list_response : {A : Type 0} → List A → ℕ → ℕ → ℕ → ListResponse A
unfolding ceil_div
create_list_response items total page page_size = record {
  items = items;
  total = total;
  page = page;
  page_size = page_size;
  pages = max_of 1 (ceil_div total page_size);
}

module _ (platform : Platform) where
  -- A text field of an `AppBaseModel`: it is stripped before the limits are checked.
  unfoldable pub bounded_text : ℕ → ℕ → String → Option String
  bounded_text min_length max_length s =
      let t = platform.trim s in
      if leb min_length (count t) && leb (count t) max_length then some t else none

  abbrev pub not_blank : Option String → Option String
  not_blank none = none
  not_blank (some t) = if is_empty (strip t) then none else some t

  -- `title` of the two conversation requests, with `title_must_not_be_blank`.
  unfoldable pub validate_title : String → Option String
  unfolding bounded_text
  validate_title title = not_blank (bounded_text 1 255 title)

  -- `password` of a registration, with `password_must_not_be_blank`.
  unfoldable pub validate_new_password : String → Option String
  unfolding bounded_text
  validate_new_password password = not_blank (bounded_text 8 128 password)

  -- `password` of a login.
  unfoldable pub validate_password : String → Option String
  unfolding bounded_text
  validate_password password = bounded_text 1 128 password
