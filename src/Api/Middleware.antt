-- ===== src/Api/Middleware.antt =====
-- api/middleware.py: the id of a request. Its access log is left out.
use banking_ai_platform.Prelude.{String, is_empty, Option, none, some, List, insert, if◌then◌else◌}
use banking_ai_platform.Core.Errors.{Result, ok, err}
use banking_ai_platform.Api.Deps.{Request}

abbrev pub or_new : String → Option String → String
or_new new none = new
or_new new (some id) = if is_empty id then new else id

-- What a response carries on its way out.
abbrev pub Headers : Type 0
Headers = List (String × String)

module _ {S : Type 0} where
  abbrev pub with_header : String → Result Headers × S → Result Headers × S
  with_header request_id (ok headers, s) = (ok (insert "X-Request-ID" request_id headers), s)
  with_header request_id (err e, s) = (err e, s)

  -- `dispatch`: `header` is the `X-Request-ID` of the request, and `new` a fresh id.
  unfoldable pub dispatch :
      (new : String)
      → (header : Option String) → (Request → S → Result Headers × S)
      → Request
      → S
      → Result Headers × S
  unfolding insert
  dispatch new header call_next r s =
      let request_id = or_new new header in
      with_header request_id (call_next (record r { request_id = some request_id }) s)
