-- ===== src/Http/Remote.antt =====
-- `remoteServiceImpl` of net/soehttp/soehttp.go: the waits, retries and error texts of a request.
use soelib.Common.{
  ℕ, zero, suc, ◌-◌, [], ◌∷◌, Option, none, some, Bool, ◌&&◌, ◌||◌, not, ltb, ◌==◌, if◌then◌else◌,
}
use soelib.Common.Int.{pos}
use soelib.Common.Text.{String, is_empty}
use soelib.Http.Config.{RetryConfig, one_second, mul64, shl_one, lt64}
use soelib.Http.Wire.{
  Bytes, Reply, HttpClient, Attempts, RequestResult, Pass, Decoders, new_error, status_number,
  call_failed, read_failed, wrap_last, unreadable, content, broken, responded, slept, called,
  continue, return, json_text, json_object, json_other, member, SoeGoResponseVo, is_success, is_500,
  at_most, below, start, busy, retries,
}

unfoldable pub calculate_retry_wait : Option RetryConfig → ℕ → ℕ
calculate_retry_wait none attempt = one_second
calculate_retry_wait (some c) attempt =
    let wait_time = mul64 c.retry_wait_time (shl_one (attempt - 1)) in
    if lt64 c.retry_max_wait wait_time then c.retry_max_wait else wait_time

abbrev pub default_retryable : ℕ → Bool
default_retryable code = code == 500 || code == 502 || code == 503 || code == 504

unfoldable pub is_retryable_status : Option RetryConfig → ℕ → Bool
is_retryable_status none code = default_retryable code
is_retryable_status (some c) code = elim c.retryable_status [
  | [] ↦ default_retryable code
  | x ∷ xs ↦ member code (x ∷ xs)
]

module _ {O : Type 0} (d : Decoders O) where
  -- The answer of a Go service, when that of a Java service has no text.
  abbrev pub vo_error : Option SoeGoResponseVo → String
  vo_error none = busy
  vo_error (some vo) =
      let msg = if is_empty vo.msg then busy else vo.msg in
      elim vo.data_string [
        | none ↦ msg
        | some t ↦ if is_500 vo.code && not (is_empty t) then t else msg
      ]

  unfoldable pub handle_map_error : O → String
  handle_map_error o =
      let second_try = vo_error (d.decode_vo o) in
      elim (d.decode_exception o) [
        | none ↦ second_try
        | some e ↦
            if not (is_empty e.data_text)
            then e.data_text
            else if not (is_empty e.message)
            then e.message
            else second_try
      ]

  unfoldable pub handle_error_with_body : ℕ → Bytes → String
  handle_error_with_body code body =
      if code == 401 || code == 403 then d.status_text code else elim (d.unmarshal body) [
        | none ↦ d.status_text code
        | some j ↦ elim j [
          | json_text t ↦ t
          | json_object o ↦ handle_map_error o
          | json_other ↦ busy
        ]
      ]

  -- A body of the loop of `doRequest`, from the wait to the `continue` or the `return`.
  module _ (c : Option RetryConfig) (client : HttpClient) where
    abbrev pub wait : ℕ → Attempts → Attempts
    wait attempt s =
        if ltb 0 attempt
        then record s { events = slept (calculate_retry_wait c attempt) ∷ s.events }
        else s

    abbrev pub judge : ℕ → ℕ → Bytes → Attempts → Pass
    judge attempt code body s =
        if is_success code
        then return
            (record { body = some body; status = code; retry_count = pos attempt; err = none }) s
        else if is_retryable_status c code && below attempt (retries c)
        then continue (record s { last_err = some (status_number code) })
        else return
            (record {
              body = none;
              status = code;
              retry_count = pos attempt;
              err = some (new_error (handle_error_with_body code body));
            })
            s

    abbrev pub read_reply : ℕ → Reply → Attempts → Pass
    read_reply attempt (broken e) s =
        if below attempt (retries c)
        then continue (record s { last_err = some e })
        else return
            (record {
              body = none;
              status = 0;
              retry_count = pos attempt;
              err = some (call_failed (retries c) e);
            })
            s
    read_reply attempt (responded code (unreadable e)) s =
        let t = record s { status_code = code } in
        if below attempt (retries c)
        then continue (record t { last_err = some e })
        else return
            (record {
              body = none;
              status = code;
              retry_count = pos attempt;
              err = some (read_failed (retries c) e);
            })
            t
    read_reply attempt (responded code (content body)) s =
        judge attempt code body (record s { status_code = code })

    unfoldable pub pass : ℕ → Attempts → Pass
    pass attempt s =
        let t = wait attempt s in
        let sent = client attempt t.unread in
        read_reply attempt sent.0
          (record t { unread = sent.1; events = called t.unread ∷ t.events })

    -- After the loop: the statement that is reached when no attempt is made.
    abbrev pub exhausted : Attempts → RequestResult
    exhausted s = record {
      body = none;
      status = s.status_code;
      retry_count = retries c;
      err = some (wrap_last (retries c) s.last_err);
    }

    -- The `for` loop, by passes left; `none` says that they were not enough.
    abbrev pub run_loop : ℕ → ℕ → Attempts → Option (RequestResult × Attempts)
    run_loop zero attempt s = none
    run_loop (suc fuel) attempt s =
        if at_most attempt (retries c)
        then elim (pass attempt s) [
          | continue t ↦ run_loop fuel (suc attempt) t
          | return o t ↦ some (o, t)
        ]
        else some (exhausted s, s)

    unfoldable pub do_request : ℕ → Bytes → Option (RequestResult × Attempts)
    do_request fuel request_body = run_loop fuel 0 (start request_body)
