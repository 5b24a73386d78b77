-- ===== src/Telegram/Hub/Reading.antt =====
-- What `TelegramHub.handle` reads from a request before it touches the bot: the secret, the headers,
-- the body with its hard cap, and the update's id.
use vpsssssskjwjw.Prelude.{
  ℕ, Bool, true, false, ◌&&◌, not, Option, none, some, List, [], ◌∷◌, ◌++◌, Text, text_eq, nat_eq,
  ◌==◌, codes, has_infix, ltb, length, if◌then◌else◌,
}

-- The headers as `request.headers.get` returns them, and the chunks of `request.stream()`.
pub record Request : Type 0 where
  pub secret_token : Text
  pub content_type : Text
  pub content_length : Option Text
  pub chunks : List Text

-- Python's text and JSON functions: `str.lower`, `str.isdigit`, `int`, and `json.loads` followed by
-- the two `isinstance` tests.
pub record HttpLibrary (UpdateId Update : Type 0) : Type 1 where
  pub lower : Text → Text
  pub is_digit : ℕ → Bool
  pub int : Text → Option ℕ
  pub Json : Type 0
  pub loads : Text → Option Json
  pub as_dict : Json → Option Update
  pub update_id : Update → Option UpdateId

-- A status with the `Retry-After` header, or the exception of `int` that nothing catches.
pub data Reply : Type 0 where
  ok_true crashed : Reply
  http_error : ℕ → Option ℕ → Reply

-- `rejected` is counted, `refused` is not.
pub data Parsed (UpdateId Update : Type 0) : Type 0 where
  rejected refused : Reply → Parsed UpdateId Update
  update : UpdateId → Update → Parsed UpdateId Update

abbrev all_digits : (ℕ → Bool) → Text → Bool
all_digits is_digit [] = true
all_digits is_digit (c ∷ s) = is_digit c && all_digits is_digit s

-- `str.isdigit` is false of the empty text.
abbrev pub isdigit : (ℕ → Bool) → Text → Bool
isdigit is_digit s = not (s == []) && all_digits is_digit s

-- The loop over the chunks: the buffer grows until it passes the cap.
unfoldable pub read_body : ℕ → Text → List Text → Option Text
read_body cap buffer [] = some buffer
read_body cap buffer (chunk ∷ chunks) =
    let buffer' = buffer ++ chunk in
    let rest = read_body cap buffer' chunks in if ltb cap (length buffer') then none else rest

module _ {UpdateId Update : Type 0} (L : HttpLibrary UpdateId Update) where
  open L use {lower, is_digit, int, loads, as_dict, update_id}

  -- `json.loads` and the checks of the update.
  unfoldable pub read_update : Text → Parsed UpdateId Update
  read_update body = elim (loads body) [
    | none ↦ refused (http_error 400 none)
    | some json ↦ elim (as_dict json) [
      | none ↦ refused (http_error 400 none)
      | some u ↦ elim (update_id u) [ none ↦ refused (http_error 400 none) | some i ↦ update i u ]
    ]
  ]

  -- `length and length.isdigit() and int(length) > cap`: `none` where `int` raises.
  unfoldable pub declared_too_large : Option Text → ℕ → Option Bool
  declared_too_large none cap = some false
  declared_too_large (some len) cap =
      if isdigit is_digit len
      then elim (int len) [ none ↦ none | some n ↦ some (ltb cap n) ]
      else some false

  unfoldable pub read_content : Request → ℕ → Parsed UpdateId Update
  unfolding declared_too_large
  read_content r cap = elim (declared_too_large r.content_length cap) [
    | none ↦ refused crashed
    | some true ↦ rejected (http_error 413 none)
    | some false ↦ elim (read_body cap [] r.chunks) [
      | none ↦ rejected (http_error 413 none)
      | some body ↦ read_update body
    ]
  ]

  unfoldable pub read_request : Text → Request → ℕ → Parsed UpdateId Update
  unfolding read_content
  read_request secret r cap =
      if not (r.secret_token == secret)
      then rejected (http_error 403 none)
      else if not (r.content_type == [])
          && not (has_infix (codes "application/json") (lower r.content_type))
      then rejected (http_error 415 none)
      else read_content r cap
