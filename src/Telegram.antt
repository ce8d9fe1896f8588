-- ===== src/Telegram.antt =====
-- internal/telegram/client.go: the calls of the Bot API with their retries. The answers of the network, of the
-- context and of the waits are given per attempt by `Trip`; JSON is decoded by a parameter. Times are
-- milliseconds; URLs and the multipart envelope are left out.
pub mod Retry
mod Examples
use pentaract.Prelude.{
  ℕ, zero, suc, ◌+◌, ◌-◌, ◌*◌, ◌^◌, ◌≤◌, Bool, true, false, ◌&&◌, ◌||◌, not, Option, none, some,
  List, [], ◌∷◌, ◌++◌, ◌==◌, if◌then◌else◌, ltb, leb, bytes_eq, length,
}
use pentaract.Prelude.Int.{ℤ, pos, negsuc}
use pentaract.OrderedJobs.Spec.{Outcome, ok, err}
use pentaract.Files.Naming.{decimal}

abbrev pub max_retries : ℕ
max_retries = 3

unfoldable pub retry_backoff : ℕ → ℕ
retry_backoff attempt = (attempt + 1) * 500

-- `ParseInt` of "-100" and the digits; out of range it gives the least int64.
unfoldable pub convert_chat_id : ℤ → ℤ
unfolding decimal
convert_chat_id (negsuc n) = negsuc n
convert_chat_id (pos n) =
    let m = 100 * 10 ^ length (decimal n) + n in
    if leb m (2 ^ 63) then negsuc (m - 1) else negsuc (2 ^ 63 - 1)

-- What is known of a transport or read error.
pub record Failure : Type 0 where
  pub code : ℕ
  pub is_cancelled : Bool
  pub is_cut_short : Bool
  pub is_network : Bool

unfoldable pub is_retryable_download_error : Bool → Failure → Bool
is_retryable_download_error context_ended f =
    not context_ended && not f.is_cancelled && (f.is_cut_short || f.is_network)

-- `client.Do`: no response, or its status, the `retry_after` of its body read as JSON, and its body.
pub data Response : Type 0 where
  no_response : Failure → Response
  response : ℕ → Option ℕ → Outcome Failure (List ℕ) → Response

-- One attempt: the context before it, the request, the response, the context after it, and the wait.
pub record Trip : Type 0 where
  pub ended : Option ℕ
  pub request_failure : Option ℕ
  pub answer : Response
  pub ended_after : Bool
  pub wait_ended : Option ℕ

pub data Fault : Type 0 where
  context_ended bad_request : ℕ → Fault
  rate_limited : ℕ → Fault
  transport : Failure → Fault
  api_status : ℕ → Fault
  bad_json not_ok resolve_failed get_file_failed too_big interrupted : Fault

-- The result of `doOnce`.
pub data Once : Type 0 where
  answered : ℕ → List ℕ → Once
  limited : ℕ → Once
  broken : Failure → Once

-- Five seconds where the body of a 429 tells none.
unfoldable pub retry_after : Option ℕ → ℕ
retry_after none = 5
retry_after (some r) = if ltb 0 r then r else 5

unfoldable pub do_once : Response → Once
unfolding retry_after
do_once (no_response f) = broken f
do_once (response status seconds body) =
    if status == 429
    then limited (retry_after seconds)
    else elim body [ err f ↦ broken f | ok b ↦ answered status b ]

-- How long the client waits after an attempt, where it goes on.
unfoldable pub wait_of : ℕ → Bool → Once → Option ℕ
unfolding is_retryable_download_error retry_backoff
wait_of attempt ended (answered status body) = none
wait_of attempt ended (limited seconds) = some (seconds * 1000)
wait_of attempt ended (broken f) =
    if is_retryable_download_error ended f then some (retry_backoff attempt) else none

abbrev pub fault_of : Once → Fault
fault_of (answered status body) = api_status status
fault_of (limited seconds) = rate_limited seconds
fault_of (broken f) = transport f

abbrev pub is_answered : Once → Option (ℕ × List ℕ)
is_answered (answered status body) = some (status, body)
is_answered (limited seconds) = none
is_answered (broken f) = none

-- One turn of the loop: its end, or another turn after a wait.
pub data Next : Type 0 where
  stop : Outcome Fault (ℕ × List ℕ) → Next
  again : ℕ → Next

unfoldable pub turn : Bool → ℕ → Trip → Next
unfolding do_once wait_of
turn last attempt t =
    let once = do_once t.answer in
    elim t.ended [
      | some e ↦ stop (err (context_ended e))
      | none ↦ elim t.request_failure [
        | some e ↦ stop (err (bad_request e))
        | none ↦ elim (is_answered once) [
          | some r ↦ stop (ok r)
          | none ↦
              if last
              then stop (err (fault_of once))
              else elim (wait_of attempt t.ended_after once) [
                | none ↦ stop (err (fault_of once))
                | some ms ↦ elim t.wait_ended [
                  | some e ↦ stop (err (context_ended e))
                  | none ↦ again ms
                ]
              ]
        ]
      ]
    ]

-- The loop of `doWithRetry` with the retries that are left, and the time that was waited. The last turn goes
-- round no more.
unfoldable pub retry_from : ℕ → ℕ → (ℕ → Trip) → ℕ → Outcome Fault (ℕ × List ℕ) × ℕ
unfolding turn
retry_from zero attempt trips waited = elim (turn true attempt (trips attempt)) [
  | stop r ↦ (r, waited)
  | again ms ↦ (err not_ok, waited)
]
retry_from (suc left) attempt trips waited = elim (turn false attempt (trips attempt)) [
  | stop r ↦ (r, waited)
  | again ms ↦ retry_from left (suc attempt) trips (waited + ms)
]

unfoldable pub do_with_retry : (ℕ → Trip) → Outcome Fault (ℕ × List ℕ) × ℕ
unfolding retry_from
do_with_retry trips = retry_from max_retries 0 trips 0

-- `Upload`: the file id and the message of a document that was sent.
pub record Sent : Type 0 where
  pub is_ok : Bool
  pub file_id : List ℕ
  pub message_id : ℕ

unfoldable pub upload : (List ℕ → Option Sent) → (ℕ → Trip) → Outcome Fault (List ℕ × ℕ)
unfolding do_with_retry
upload decode trips = elim (do_with_retry trips).0 [
  | err e ↦ err e
  | ok (status, body) ↦
      if not (status == 200) then err (api_status status) else elim (decode body) [
        | none ↦ err bad_json
        | some r ↦ if r.is_ok then ok (r.file_id, r.message_id) else err not_ok
      ]
]

unfoldable pub delete_message : (ℕ → Trip) → Option Fault
unfolding do_with_retry
delete_message trips = elim (do_with_retry trips).0 [
  | err e ↦ some e
  | ok (status, body) ↦ if status == 200 then none else some (api_status status)
]

-- The file id of the forwarded copy; its deletion is tried and its failure only logged.
unfoldable pub resolve_file_id_by_message :
    (List ℕ → Option Sent) → (ℕ → Trip) → Outcome Fault (List ℕ)
unfolding do_with_retry
resolve_file_id_by_message decode trips = elim (do_with_retry trips).0 [
  | err e ↦ err e
  | ok (status, body) ↦ elim (decode body) [
    | none ↦ err bad_json
    | some r ↦
        if not (status == 200) || not r.is_ok || bytes_eq r.file_id []
        then err resolve_failed
        else ok r.file_id
  ]
]

-- `getFile` read as JSON: whether it is ok, and the path.
pub record Located : Type 0 where
  pub is_ok : Bool
  pub file_path : List ℕ

-- An error of the second step that is no rate limit becomes ErrDownloadInterrupted.
unfoldable pub download_error : Fault → Fault
download_error (rate_limited r) = rate_limited r
download_error _ = interrupted

-- `Download`; `says_too_big` looks for "file is too big" in the body.
unfoldable pub download :
    (List ℕ → Option Located) → (List ℕ → Bool) → (ℕ → Trip) → (ℕ → Trip) → Outcome Fault (List ℕ)
unfolding do_with_retry download_error
download decode says_too_big locate fetch = elim (do_with_retry locate).0 [
  | err e ↦ err e
  | ok (status, body) ↦ elim (decode body) [
    | none ↦ err bad_json
    | some r ↦
        if not (status == 200)
        then err (if says_too_big body then too_big else get_file_failed)
        else if not r.is_ok || bytes_eq r.file_path []
        then err get_file_failed
        else elim (do_with_retry fetch).0 [
          | err e ↦ err (download_error e)
          | ok (code, bytes) ↦ if code == 200 then ok bytes else err (api_status code)
        ]
  ]
]
