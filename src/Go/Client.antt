-- ===== src/Go/Client.antt =====
-- The HTTP client and `encoding/json` as the alert managers see them, and the current time.
use climatik_project.Prelude.{ℕ, String}
use climatik_project.Go.Result.{Result, Failure}
use climatik_project.Go.Json.{Json}
use climatik_project.Go.Http.{Post}

-- `StatusCode` and `Status` of a response.
pub record Reply : Type 0 where
  pub status_code : ℕ
  pub status : String

-- What `time.Now()` reads, in the two formats in which it is written out.
pub record Time : Type 0 where
  pub rfc3339 : String
  pub rfc3339_nano : String

-- What the outside world answers: `json.Marshal`, `http.NewRequest` (nil if the URL parses), and
-- a request that is sent.
pub record Client : Type 0 where
  pub now : Time
  pub marshal : Json → Result String
  pub new_request : String → Failure
  pub send : Post → Result Reply
