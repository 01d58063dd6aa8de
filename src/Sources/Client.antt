-- ===== src/Sources/Client.antt =====
-- trouveur/sources/http.py: the client that every adapter asks through. httpx, its answers and the
-- clock are parameters; a time is a number of microseconds.
pub mod Ends
pub mod Retries
pub mod Waits
pub mod Json
pub mod Keys
pub mod Throttle
pub mod Spacing
mod Tests
use trouveur.Prelude.{
  ℕ, zero, suc, ◌+◌, ◌-◌, ◌*◌, ◌^◌, min, Bool, true, false, not, ◌&&◌, ◌||◌, Option, some, none,
  List, [], ◌∷◌, ◌++◌, ltb, leb, ◌==◌, nat_eq, string_eq, list_eq, length, take, drop, filter, any,
  elem, if◌then◌else◌,
}
use trouveur.Db.{Text, second}
use trouveur.Sources.{Failure, source_blocked, fetch_error, Result, ok, err}

-- what the client reads of an answer: of the headers the type of the content, and Retry-After
pub record Response : Type 0 where
  pub status_code : ℕ
  pub content_type : Text
  pub retry_after : Option Text
  pub text : Text

-- what one request gives back: an answer, or an httpx.HTTPError with its text
pub data Attempt : Type 0 where
  answered : Response → Attempt
  failed : Text → Attempt

-- _RETRY_STATUS, _MAX_ATTEMPTS, _CHALLENGE_MARKERS, _BUDGET_PER_HOST
abbrev pub retry_status : List ℕ
retry_status = 429 ∷ 500 ∷ 502 ∷ 503 ∷ 504 ∷ []

abbrev pub client_attempts : ℕ
client_attempts = 4

abbrev challenge_markers : List Text
challenge_markers =
    (b'<' ∷ b't' ∷ b'i' ∷ b't' ∷ b'l' ∷ b'e' ∷ b'>' ∷ b'j' ∷ b'u' ∷ b's' ∷ b't' ∷ b' ' ∷ b'a' ∷ b' '
      ∷ b'm' ∷ b'o' ∷ b'm' ∷ b'e' ∷ b'n' ∷ b't' ∷ b'.' ∷ b'.' ∷ b'.' ∷ b'<' ∷ b'/' ∷ b't' ∷ b'i'
      ∷ b't' ∷ b'l' ∷ b'e' ∷ b'>' ∷ [])
    ∷ (b'_' ∷ b'c' ∷ b'f' ∷ b'_' ∷ b'c' ∷ b'h' ∷ b'l' ∷ b'_' ∷ b'o' ∷ b'p' ∷ b't' ∷ [])
    ∷ (b'a' ∷ b't' ∷ b't' ∷ b'e' ∷ b'n' ∷ b't' ∷ b'i' ∷ b'o' ∷ b'n' ∷ b' ' ∷ b'r' ∷ b'e' ∷ b'q'
        ∷ b'u' ∷ b'i' ∷ b'r' ∷ b'e' ∷ b'd' ∷ b'!' ∷ b' ' ∷ b'|' ∷ b' ' ∷ b'c' ∷ b'l' ∷ b'o' ∷ b'u'
        ∷ b'd' ∷ b'f' ∷ b'l' ∷ b'a' ∷ b'r' ∷ b'e' ∷ [])
    ∷ (b'c' ∷ b'a' ∷ b'p' ∷ b't' ∷ b'c' ∷ b'h' ∷ b'a' ∷ b'-' ∷ b'd' ∷ b'e' ∷ b'l' ∷ b'i' ∷ b'v'
        ∷ b'e' ∷ b'r' ∷ b'y' ∷ b'.' ∷ b'c' ∷ b'o' ∷ b'm' ∷ [])
    ∷ (b'p' ∷ b'x' ∷ b'-' ∷ b'c' ∷ b'a' ∷ b'p' ∷ b't' ∷ b'c' ∷ b'h' ∷ b'a' ∷ [])
    ∷ (b'_' ∷ b'i' ∷ b'n' ∷ b'c' ∷ b'a' ∷ b'p' ∷ b's' ∷ b'u' ∷ b'l' ∷ b'a' ∷ b'_' ∷ b'r' ∷ b'e'
        ∷ b's' ∷ b'o' ∷ b'u' ∷ b'r' ∷ b'c' ∷ b'e' ∷ [])
    ∷ (b'p' ∷ b'a' ∷ b'r' ∷ b'd' ∷ b'o' ∷ b'n' ∷ b' ' ∷ b'o' ∷ b'u' ∷ b'r' ∷ b' ' ∷ b'i' ∷ b'n'
        ∷ b't' ∷ b'e' ∷ b'r' ∷ b'r' ∷ b'u' ∷ b'p' ∷ b't' ∷ b'i' ∷ b'o' ∷ b'n' ∷ [])
    ∷ []

abbrev pub budget_per_host : List Text
budget_per_host =
    (b'm' ∷ b'y' ∷ b'w' ∷ b'o' ∷ b'r' ∷ b'k' ∷ b'd' ∷ b'a' ∷ b'y' ∷ b'j' ∷ b'o' ∷ b'b' ∷ b's' ∷ b'.'
      ∷ b'c' ∷ b'o' ∷ b'm' ∷ [])
    ∷ []

abbrev pub dot : ℕ
dot = b'.'

abbrev begins_with : Text → Text → Bool
begins_with [] text = true
begins_with (c ∷ part) [] = false
begins_with (c ∷ part) (d ∷ text) = c == d && begins_with part text

-- Python's `part in text`
unfoldable pub is_within : Text → Text → Bool
is_within part [] = begins_with part []
is_within part (c ∷ text) = begins_with part (c ∷ text) || is_within part text

-- `text.split(separator)`, and what it gives before the first separator
abbrev begin_with : ℕ → List Text → List Text
begin_with c [] = (c ∷ []) ∷ []
begin_with c (label ∷ labels) = (c ∷ label) ∷ labels

unfoldable pub split_on : ℕ → Text → List Text
split_on separator [] = [] ∷ []
split_on separator (c ∷ text) =
    let rest = split_on separator text in if c == separator then [] ∷ rest else begin_with c rest

abbrev pub before_first : ℕ → Text → Text
before_first separator [] = []
before_first separator (c ∷ text) = if c == separator then [] else c ∷ before_first separator text

-- `text.rsplit(separator, 1)[-1]`
abbrev pub after_last : ℕ → Text → Text
after_last separator [] = []
after_last separator (c ∷ text) =
    if elem separator text
    then after_last separator text
    else if c == separator
    then text
    else c ∷ text

abbrev pub is_label : Text → Bool
is_label [] = false
is_label (c ∷ label) = true

-- the labels of a host, those that are empty left out
abbrev pub labels_of : Text → List Text
labels_of host = filter is_label (split_on dot host)

abbrev pub domain_of : List Text → Text
domain_of [] = []
domain_of (a ∷ []) = a
domain_of (a ∷ b ∷ []) = a ++ dot ∷ b
domain_of (a ∷ b ∷ c ∷ labels) = domain_of (b ∷ c ∷ labels)

-- `.lower()`, `urlsplit(url).netloc`, `float` in microseconds, and the parser of JSON
module _ (lower : Text → Text) where
  unfoldable pub host_of : Text → Text
  host_of netloc = lower (before_first b':' (after_last b'@' netloc))

  unfoldable pub throttle_key : Text → Text
  unfolding host_of split_on filter
  throttle_key netloc =
      let host = host_of netloc in
      let domain = domain_of (labels_of host) in
      if leb (length (labels_of host)) 2
      then host
      else if elem domain budget_per_host
      then host
      else domain

  unfoldable pub is_challenge : Response → Bool
  unfolding is_within
  is_challenge response =
      is_within (b'h' ∷ b't' ∷ b'm' ∷ b'l' ∷ []) (lower response.content_type)
      && any (λ marker. is_within marker (lower (take 20000 response.text))) challenge_markers

-- what the last attempt came to, which the message and the class of the error are made of
pub data LastError : Type 0 where
  nothing_asked : LastError
  raised : Text → LastError
  status : ℕ → LastError

-- How a request ends: with an answer, or with one of the errors.
pub data Ending : Type 0 where
  answer : Response → Ending
  challenged : ℕ → Ending
  gave_up_blocked gave_up : LastError → Ending

-- A request as a whole: its end, the requests sent, and the waits between them.
pub record Exchange : Type 0 where
  pub ending : Ending
  pub sent : ℕ
  pub slept : List ℕ

abbrev pub refuses : ℕ → Bool
refuses code = elem code (403 ∷ 429 ∷ 503 ∷ [])

-- The ending that an attempt brings, unless another attempt follows it.
unfoldable pub concluded : (Response → Bool) → Attempt → Option Ending
concluded is_wall (failed error) = none
concluded is_wall (answered response) =
    if refuses response.status_code && is_wall response
    then some (challenged response.status_code)
    else if elem response.status_code retry_status
    then none
    else some (answer response)

abbrev pub error_of : Attempt → LastError
error_of (failed error) = raised error
error_of (answered response) = status response.status_code

unfoldable pub give_up : LastError → Ending
give_up nothing_asked = gave_up nothing_asked
give_up (raised error) = gave_up (raised error)
give_up (status code) = if code == 429 then gave_up_blocked (status code) else gave_up (status code)

module _ (is_wall : Response → Bool) (read_float : Text → Option ℕ) (jitter : ℕ → ℕ) where
  -- _retry_after
  abbrev pub retry_after_of : Option Text → Option ℕ
  retry_after_of none = none
  retry_after_of (some []) = none
  retry_after_of (some (c ∷ raw)) = elim (read_float (c ∷ raw)) [
    | none ↦ none
    | some wait ↦ some (min wait (120 * second))
  ]

  abbrev pub backoff : ℕ → ℕ
  backoff attempt = 2 ^ (attempt - 1) * second + jitter attempt

  -- the wait after an attempt that is not the last
  abbrev pub wait_after : ℕ → Attempt → ℕ
  wait_after attempt (failed error) = backoff attempt
  wait_after attempt (answered response) = elim (retry_after_of response.retry_after) [
    | none ↦ backoff attempt
    | some wait ↦ wait
  ]

  -- The loop: `left` attempts are left, `attempt` is the number of the next.
  unfoldable pub request_from : (ℕ → Attempt) → ℕ → ℕ → LastError → Exchange
  unfolding concluded give_up
  request_from attempts zero attempt last_error = record {
    ending = give_up last_error;
    sent = 0;
    slept = [];
  }
  request_from attempts (suc left) attempt last_error =
      let result = attempts attempt in
      let rest = request_from attempts left (attempt + 1) (error_of result) in
      elim (concluded is_wall result) [
        | some ending ↦ record { ending = ending; sent = 1; slept = [] }
        | none ↦ record {
          ending = rest.ending;
          sent = rest.sent + 1;
          slept = if leb 1 left then wait_after attempt result ∷ rest.slept else rest.slept;
        }
      ]

  -- PoliteClient.request, in its context, with the waits of _throttle apart
  unfoldable pub request : (ℕ → Attempt) → ℕ → Exchange
  unfolding request_from
  request attempts limit = request_from attempts limit 1 nothing_asked

-- What get_json and post_json come to: the value, one of the errors of `_decode`, or what the
-- request raised.
pub data Decoded {ℓ} (Json : Type ℓ) : Type ℓ where
  value : Json → Decoded Json
  bad_status : ℕ → Decoded Json
  blank_body challenge_page not_json : Decoded Json
  unanswered : Ending → Decoded Json

module _ {ℓ} {Json : Type ℓ} (is_wall is_blank : Response → Bool)
    (read_json : Response → Option Json) where
  unfoldable pub decode : Response → Decoded Json
  decode response =
      if not (response.status_code == 200)
      then bad_status response.status_code
      else if is_blank response
      then blank_body
      else if is_wall response
      then challenge_page
      else elim (read_json response) [ none ↦ not_json | some json ↦ value json ]

  unfoldable pub decode_ending : Ending → Decoded Json
  unfolding decode
  decode_ending (answer response) = decode response
  decode_ending (challenged code) = unanswered (challenged code)
  decode_ending (gave_up_blocked error) = unanswered (gave_up_blocked error)
  decode_ending (gave_up error) = unanswered (gave_up error)

  unfoldable pub get_json : (Text → Option ℕ) → (ℕ → ℕ) → (ℕ → Attempt) → ℕ → Decoded Json
  unfolding decode_ending request
  get_json read_float jitter attempts limit =
      decode_ending (request is_wall read_float jitter attempts limit).ending
