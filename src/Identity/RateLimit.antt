-- ===== src/Identity/RateLimit.antt =====
-- internal/core/identity/rate_limit.go: the policies and the keys of the rate limiter port.
-- A limit or a window that is negative in Go acts as zero there, so both are natural numbers.
use loxtu_go.Base.{ℕ, ◌*◌, ◌++◌, Str, bytes}
use loxtu_go.Base.Clock.{minute, hour}

pub record RateLimitPolicy : Type 0 where
  pub max_attempts : ℕ
  -- Zero means a permanent quota.
  pub window : ℕ
  pub description : Str

abbrev pub policy_otp : RateLimitPolicy
policy_otp = record {
  max_attempts = 5;
  window = 10 * minute;
  description = bytes "OTP verification attempts";
}

abbrev pub policy_login : RateLimitPolicy
policy_login = record {
  max_attempts = 10;
  window = 15 * minute;
  description = bytes "Login attempts";
}

abbrev pub policy_registration : RateLimitPolicy
policy_registration = record {
  max_attempts = 30;
  window = hour;
  description = bytes "Registration attempts";
}

abbrev pub policy_max_sessions : RateLimitPolicy
policy_max_sessions = record {
  max_attempts = 1;
  window = 0;
  description = bytes "Maximum active sessions per user";
}

abbrev pub rate_key_otp_send : Str → Str
rate_key_otp_send email = bytes "otp:send:" ++ email

abbrev pub rate_key_otp_fail : Str → Str
rate_key_otp_fail email = bytes "otp:fail:" ++ email

abbrev pub rate_key_login : Str → Str
rate_key_login email = bytes "login:" ++ email

abbrev pub rate_key_sessions : Str → Str
rate_key_sessions actor_id = bytes "sessions:" ++ actor_id
