-- ===== src/Http.antt =====
-- What the handlers see of package net/http, net/url and encoding/json: requests and replies as data.
use zth_sre.Prelude.{ℕ, String, Bool, true, false, ◌||◌, Option, ◌==◌, String_eq}

-- `r.Method`: the methods that the handlers name, and any other.
pub data Method : Type 0 where
  get put post head other : Method

abbrev pub is_get : Method → Bool
is_get get = true
is_get _ = false

abbrev pub is_put : Method → Bool
is_put put = true
is_put _ = false

abbrev pub is_post : Method → Bool
is_post post = true
is_post _ = false

abbrev pub is_head : Method → Bool
is_head head = true
is_head _ = false

-- What a json.Decoder with DisallowUnknownFields finds in a size-limited body: the first value,
-- none if that `Decode` fails, and whether the next `Decode` returns io.EOF.
pub record Body (A : Type 0) : Type 0 where
  pub value : Option A
  pub at_end : Bool

pub data Response (A : Type 0) : Type 0 where
  -- http.Error with a status.
  refused : ℕ → Response A
  -- A body with a status.
  answered : ℕ → A → Response A

abbrev pub status_of : {A : Type 0} → Response A → ℕ
status_of (refused n) = n
status_of (answered n a) = n

-- What url.Parse gives the start-up checks; `port` and the userinfo are not looked at further.
pub record Url : Type 0 where
  pub scheme : String
  pub hostname : String
  pub host : String
  pub user : Bool
  pub path : String
  pub raw_path : String
  pub raw_query : String
  pub force_query : Bool
  pub fragment : String
  pub opaque_part : String

unfoldable pub is_http : String → Bool
is_http scheme = scheme == "http" || scheme == "https"
