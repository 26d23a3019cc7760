-- ===== src/Go/Http.antt =====
-- `net/http`: the response writer of a handler, and the requests that a client posts.
use Prim.Native.String.{◌++◌}
use climatik_project.Prelude.{ℕ, String, Option, none, some, []}
use climatik_project.Go.Map.{Map, insert}

-- `sent` is the status and the headers that went out; later calls of WriteHeader change nothing.
pub record Response : Type 0 where
  pub header : Map String
  pub sent : Option (ℕ × Map String)
  pub body : String

abbrev pub fresh : Response
fresh = record { header = []; sent = none; body = "" }

abbrev pub set_header : String → String → Response → Response
set_header k v w = record w { header = insert k v w.header }

abbrev or_sent : Option (ℕ × Map String) → ℕ × Map String → Option (ℕ × Map String)
or_sent none p = some p
or_sent (some q) p = some q

-- `w.WriteHeader(code)`
abbrev pub write_header : ℕ → Response → Response
write_header status w = record w { sent = or_sent w.sent (status, w.header) }

-- `w.Write(text)` sends status 200 first if no status was sent.
abbrev pub write : String → Response → Response
write text w = record w { sent = or_sent w.sent (200, w.header); body = w.body ++ text }

-- `http.Error(w, message, code)`
abbrev pub http_error : String → ℕ → Response → Response
http_error message status w = write (message ++ "\n") (
    write_header status (
      set_header "X-Content-Type-Options" "nosniff"
        (set_header "Content-Type" "text/plain; charset=utf-8" w)))

abbrev first_of_pair : Option (ℕ × Map String) → Option ℕ
first_of_pair none = none
first_of_pair (some p) = some p.0

-- The status that the client sees, if one was sent.
abbrev pub status : Response → Option ℕ
status w = first_of_pair w.sent

abbrev pub status_bad_request : ℕ
status_bad_request = 400

abbrev pub status_unauthorized : ℕ
status_unauthorized = 401

abbrev pub status_internal_server_error : ℕ
status_internal_server_error = 500

abbrev pub status_ok : ℕ
status_ok = 200

-- A request that a client posts: its body is the JSON value that was marshalled.
pub record Post : Type 0 where
  pub url : String
  pub content_type : String
  pub body : String
