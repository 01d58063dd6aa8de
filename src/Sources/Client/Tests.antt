-- ===== src/Sources/Client/Tests.antt =====
-- Requests of a client, their waits and their keys.
use trouveur.Prelude.{
  ℕ, zero, suc, ◌+◌, ◌≤◌, ◌≡◌, refl, Bool, false, [], ◌∷◌, Option, some, none, arith, elem, nat_eq,
}
use trouveur.Db.{Text, second}
use trouveur.Sources.Client.{
  Response, Attempt, answered, failed, answer, request, get_json, value, client_attempts,
}
use trouveur.Sources.Client.Throttle.{Turn, Clocks, stamp_of, throttle, throttle_each}
use trouveur.Sources.Client.Retries.{is_blocked, is_refusal, request_blocked}
use trouveur.Sources.Client.Ends.{IsEnded, request_ends}
use trouveur.Sources.Client.Json.{IsJson, get_json-IsJson}
use trouveur.Sources.Client.Spacing.{throttle_spaced}

abbrev page : ℕ → Response
page code = record { status_code = code; content_type = []; retry_after = none; text = [] }

abbrev never : Response → Bool
never r = false

abbrev no_number : Text → Option ℕ
no_number raw = none

abbrev no_jitter : ℕ → ℕ
no_jitter attempt = 0

-- Two answers of 503, an error of the connection, then the page.
abbrev fourth : ℕ → Attempt
fourth (suc (suc (suc zero))) = failed []
fourth (suc (suc (suc (suc n)))) = answered (page 200)
fourth n = answered (page 503)

abbrev refusing : ℕ → Attempt
refusing n = answered (page 429)

fourth_answers :
    (request never no_number no_jitter fourth client_attempts).ending ≡ answer (page 200)
unfolding request elem
fourth_answers = refl

fourth_waits :
    (request never no_number no_jitter fourth client_attempts).slept
    ≡ second ∷ (second + second) ∷ (second + second + second + second) ∷ []
unfolding request elem
fourth_waits = refl

request_blocked_example :
    is_blocked (request never no_number no_jitter refusing 4).ending
    ≡ is_refusal never (refusing (request never no_number no_jitter refusing 4).sent)
request_blocked_example = request_blocked never no_number no_jitter refusing 4 (omega arith)

request_ends_example :
    IsEnded never fourth 4 1
      (request never no_number no_jitter fourth 4).sent
      (request never no_number no_jitter fourth 4).ending
request_ends_example = request_ends never no_number no_jitter fourth 4 (omega arith)

abbrev read : Response → Option ℕ
read r = some 7

seven : get_json never never read no_number no_jitter fourth 4 ≡ value 7
unfolding get_json elem
seven = refl

get_json-IsJson_example :
    (r : Response) × (fourth (request never no_number no_jitter fourth 4).sent ≡ answered r)
    × IsJson never never read r 7
get_json-IsJson_example = get_json-IsJson never never read no_number no_jitter fourth 4 7 seven

abbrev as_is : Text → Text
as_is text = text

abbrev acme : Text
acme = b'a' ∷ b'c' ∷ b'm' ∷ b'e' ∷ []

abbrev personio : Text
personio = b'p' ∷ b'e' ∷ b'r' ∷ b's' ∷ b'o' ∷ b'n' ∷ b'i' ∷ b'o' ∷ []

abbrev de : Text
de = b'd' ∷ b'e' ∷ []

abbrev turn : Text → ℕ → Turn
turn key now = record { key = key; delay = 10; now = now; late = 1 }

abbrev never_asked : Clocks
never_asked key = 0

throttle_spaced_example :
    stamp_of never_asked (turn acme 20) + 10
    ≤ stamp_of
        (throttle_each (turn de 22 ∷ []) (throttle (turn acme 20) never_asked))
        (turn acme 23)
unfolding throttle
throttle_spaced_example =
    throttle_spaced (turn acme 20) (turn acme 23) (turn de 22 ∷ []) never_asked refl refl
