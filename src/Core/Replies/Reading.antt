-- ===== src/Core/Replies/Reading.antt =====
-- Values of JSON as apps/desktop/src/main/core-manager.ts reads them, over the numbers of the runtime:
-- `String(x ?? d)`, `Number(x ?? 0)`, `Boolean(x)`, `Array.isArray(x)` and what a property of `null` throws.
use dolssh.Prelude.{
  ℕ, String, Bool, true, false, not, Option, none, some, List, [], ◌∷◌, ◌==◌, if◌then◌else◌,
}

mutual
  pub data Json (N : Type 0) : Type 0 where
    null : Json N
    boolean : Bool → Json N
    number : N → Json N
    text : String → Json N
    array : Elements N → Json N
    object : Fields N → Json N

  pub data Elements (N : Type 0) : Type 0 where
    last : Elements N
    element : Json N → Elements N → Elements N

  pub data Fields (N : Type 0) : Type 0 where
    end : Fields N
    field : String → Json N → Fields N → Fields N

-- The runtime's numbers and conversions.
pub record Values (N : Type 0) : Type 0 where
  pub zero : N
  pub of_count : ℕ → N
  pub is_truthy : N → Bool
  pub is_finite : N → Bool
  pub number_text : N → String
  pub compound_text : Json N → String
  pub to_number : Json N → N
  pub trim : String → String

-- A method throws: at a property of `null`, or by itself.
pub data ReplyError : Type 0 where
  null_item lines_not_texts cursor_not_text : ReplyError

pub data Reply (A : Type 0) : Type 0 where
  ok : A → Reply A
  threw : ReplyError → Reply A

module _ {A B : Type 0} where
  infixl 5 ◌>>=◌
  abbrev pub ◌>>=◌ : Reply A → (A → Reply B) → Reply B
  ok a >>= f = f a
  threw e >>= f = threw e

module _ {N : Type 0} where
  abbrev pub get_field : String → Fields N → Option (Json N)
  get_field k end = none
  get_field k (field j x fs) = if j == k then some x else get_field k fs

module _ {N A : Type 0} where
  -- An item of an array, by its fields; values that are no objects, but for `null`, have none.
  abbrev pub read_item : (Fields N → Reply A) → Json N → Reply A
  read_item f null = threw null_item
  read_item f (boolean b) = f end
  read_item f (number n) = f end
  read_item f (text s) = f end
  read_item f (array xs) = f end
  read_item f (object fs) = f fs

  abbrev pub read_each : (Json N → Reply A) → Elements N → Reply (List A)
  read_each f last = ok []
  read_each f (element x xs) = do a ← f x; rest ← read_each f xs; ok (a ∷ rest)

  -- `Array.isArray(x) ? x.map(f) : []`
  abbrev pub read_array : (Json N → Reply A) → Option (Json N) → Reply (List A)
  read_array f none = ok []
  read_array f (some null) = ok []
  read_array f (some (boolean b)) = ok []
  read_array f (some (number n)) = ok []
  read_array f (some (text s)) = ok []
  read_array f (some (array xs)) = read_each f xs
  read_array f (some (object fs)) = ok []

module _ {N : Type 0} (js : Values N) where
  -- `String(x)`
  abbrev pub as_text : Json N → String
  as_text null = "null"
  as_text (boolean true) = "true"
  as_text (boolean false) = "false"
  as_text (number n) = js.number_text n
  as_text (text s) = s
  as_text (array xs) = js.compound_text (array xs)
  as_text (object fs) = js.compound_text (object fs)

  -- `String(x ?? d)`
  abbrev pub text_or : String → Option (Json N) → String
  text_or d none = d
  text_or d (some null) = d
  text_or d (some (boolean b)) = as_text (boolean b)
  text_or d (some (number n)) = js.number_text n
  text_or d (some (text s)) = s
  text_or d (some (array xs)) = js.compound_text (array xs)
  text_or d (some (object fs)) = js.compound_text (object fs)

  -- `Number(x ?? d)`
  abbrev pub number_or : N → Option (Json N) → N
  number_or d none = d
  number_or d (some null) = d
  number_or d (some (boolean b)) = js.to_number (boolean b)
  number_or d (some (number n)) = n
  number_or d (some (text s)) = js.to_number (text s)
  number_or d (some (array xs)) = js.to_number (array xs)
  number_or d (some (object fs)) = js.to_number (object fs)

  -- `Boolean(x)`
  abbrev pub is_truthy : Option (Json N) → Bool
  is_truthy none = false
  is_truthy (some null) = false
  is_truthy (some (boolean b)) = b
  is_truthy (some (number n)) = js.is_truthy n
  is_truthy (some (text s)) = not (s == "")
  is_truthy (some (array xs)) = true
  is_truthy (some (object fs)) = true
