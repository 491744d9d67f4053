-- ===== src/Http/Wire.antt =====
-- What goes over the wire in net/soehttp: requests, replies, errors, and the record of a request's
-- attempts. net/http, encoding/json, mapstructure and the sleep of the process are outside: a
-- client answers the attempt of a number, given the part of the body that is still unread.
use soelib.Common.{
  ℕ, List, [], Option, none, some, Bool, ◌∷◌, ◌==◌, ◌&&◌, leb, ltb, true, false, if◌then◌else◌,
}
use soelib.Common.Int.{ℤ, pos, negsuc}
use soelib.Http.Config.{RetryConfig}
use soelib.Common.Text.{String}

abbrev pub Bytes : Type 0
Bytes = List ℕ

-- Go errors: a text; the code's own `lastErr` for a status (by number in one file, by rune in the
-- other); and the two texts that wrap another error, with the number of retries.
pub data Failure : Type 0 where
  new_error : String → Failure
  status_number : ℕ → Failure
  status_rune : ℕ → Failure
  call_failed : ℤ → Failure → Failure
  nothing_failed : ℤ → Failure
  read_failed : ℤ → Failure → Failure

-- `io.ReadAll` of a response body
pub data Content : Type 0 where
  unreadable : Failure → Content
  content : Bytes → Content

-- `client.Do`: an error of the transport, or a response with its status.
pub data Reply : Type 0 where
  broken : Failure → Reply
  responded : ℕ → Content → Reply

-- The attempt's number and the unread body give the reply and what is left unread.
abbrev pub HttpClient : Type 0
HttpClient = ℕ → Bytes → Reply × Bytes

pub data WireEvent : Type 0 where
  slept : ℕ → WireEvent
  called : Bytes → WireEvent

-- The locals of `doRequest` (`lastErr`, `statusCode`), the request's body, and the events, newest
-- first.
pub record Attempts : Type 0 where
  pub last_err : Option Failure
  pub status_code : ℕ
  pub unread : Bytes
  pub events : List WireEvent

-- The four results: body, status, number of the last attempt, error.
pub record RequestResult : Type 0 where
  pub body : Option Bytes
  pub status : ℕ
  pub retry_count : ℤ
  pub err : Option Failure

-- A pass of the loop: `continue`, or a return.
pub data Pass : Type 0 where
  continue : Attempts → Pass
  return : RequestResult → Attempts → Pass

-- json.Unmarshal into an `interface{}`: a string, an object, or another value.
pub data Json (O : Type 0) : Type 0 where
  json_text : String → Json O
  json_object : O → Json O
  json_other : Json O

pub record SoeRestApiException : Type 0 where
  pub error : String
  pub exception : String
  pub message : String
  pub path : String
  pub data_text : String

-- The `Data` of a reply is a string or not.
pub record SoeGoResponseVo : Type 0 where
  pub code : ℤ
  pub data_string : Option String
  pub msg : String

-- The decoders that the error texts use: `http.StatusText`, `json.Unmarshal` and the two
-- `mapstructure.Decode`.
pub record Decoders (O : Type 0) : Type 0 where
  pub status_text : ℕ → String
  pub unmarshal : Bytes → Option (Json O)
  pub decode_exception : O → Option SoeRestApiException
  pub decode_vo : O → Option SoeGoResponseVo

abbrev pub member : ℕ → List ℕ → Bool
member n [] = false
member n (x ∷ xs) = let rest = member n xs in if n == x then true else rest

-- The condition for a success, and that of a reply with `Code` 500.
abbrev pub is_success : ℕ → Bool
is_success code = leb 200 code && leb code 207

abbrev pub is_500 : ℤ → Bool
is_500 (pos n) = n == 500
is_500 (negsuc n) = false

-- `attempt <= maxRetries`, `attempt < maxRetries`
abbrev pub at_most : ℕ → ℤ → Bool
at_most a (pos n) = leb a n
at_most a (negsuc n) = false

abbrev pub below : ℕ → ℤ → Bool
below a (pos n) = ltb a n
below a (negsuc n) = false

-- `maxRetries` is 0 without a configuration.
abbrev pub retries : Option RetryConfig → ℤ
retries none = pos 0
retries (some c) = c.max_retries

-- The wrapped `lastErr`, which can be nil.
abbrev pub wrap_last : ℤ → Option Failure → Failure
wrap_last n none = nothing_failed n
wrap_last n (some e) = call_failed n e

abbrev pub start : Bytes → Attempts
start body = record { last_err = none; status_code = 0; unread = body; events = [] }

-- The text for an error of the server that says nothing.
abbrev pub busy : String
busy = "服务器太忙了，请稍后再试！"
