-- ===== src/Http/Config.antt =====
-- The configuration records of net/soehttp/soehttp.go and circuit_breaker.go, and a wait's word.
-- A `time.Duration` is the two's complement word of its 64 bits, in nanoseconds; a number of
-- retries is an int of either sign. The Boolean fields that point are an option.
use soelib.Common.{ℕ, ◌+◌, ◌*◌, ◌^◌, ◌%◌, List, [], ◌∷◌, Bool, false, ltb}
use soelib.Common.Int.{ℤ, pos}
use soelib.Common.Text.{String}

pub record TransportConfig : Type 0 where
  pub max_idle_conns : ℕ
  pub max_idle_conns_per_host : ℕ
  pub idle_conn_timeout : ℕ
  pub insecure_skip_verify : Bool

pub record RetryConfig : Type 0 where
  pub max_retries : ℤ
  pub retry_wait_time : ℕ
  pub retry_max_wait : ℕ
  pub retryable_status : List ℕ

pub record HystrixConfig : Type 0 where
  pub timeout : ℕ
  pub max_concurrent_requests : ℕ
  pub error_percent_threshold : ℕ
  pub request_volume_threshold : ℕ
  pub sleep_window : ℕ

pub record AlarmConfig : Type 0 where
  pub send_error_to_wx : Bool
  pub chat_id : String
  pub api_path : String

-- `time.Second`
abbrev pub one_second : ℕ
one_second = 1000000000

abbrev pub default_transport_config : TransportConfig
default_transport_config = record {
  max_idle_conns = 100;
  max_idle_conns_per_host = 10;
  idle_conn_timeout = 90 * one_second;
  insecure_skip_verify = false;
}

abbrev pub default_retry_config : RetryConfig
default_retry_config = record {
  max_retries = pos 0;
  retry_wait_time = one_second;
  retry_max_wait = 5 * one_second;
  retryable_status = 500 ∷ 502 ∷ 503 ∷ 504 ∷ [];
}

abbrev pub default_hystrix_config : HystrixConfig
default_hystrix_config = record {
  timeout = 2000;
  max_concurrent_requests = 100;
  error_percent_threshold = 50;
  request_volume_threshold = 20;
  sleep_window = 5000;
}

abbrev pub strict_hystrix_config : HystrixConfig
strict_hystrix_config = record {
  timeout = 1000;
  max_concurrent_requests = 50;
  error_percent_threshold = 30;
  request_volume_threshold = 10;
  sleep_window = 3000;
}

abbrev pub relaxed_hystrix_config : HystrixConfig
relaxed_hystrix_config = record {
  timeout = 5000;
  max_concurrent_requests = 200;
  error_percent_threshold = 60;
  request_volume_threshold = 30;
  sleep_window = 10000;
}

-- The int64 products and powers, and the order of int64 on words.
abbrev pub mul64 : ℕ → ℕ → ℕ
mul64 x y = x * y % 2 ^ 64

-- `1 << k`
abbrev pub shl_one : ℕ → ℕ
shl_one k = 2 ^ k % 2 ^ 64

abbrev pub bias : ℕ → ℕ
bias w = (w + 2 ^ 63) % 2 ^ 64

-- `a < b` on int64
abbrev pub lt64 : ℕ → ℕ → Bool
lt64 a b = ltb (bias a) (bias b)
