-- ===== src/Handlers/Auth/Send/Limits.antt =====
-- internal/interfaces/http/handlers/auth_handler.go: what SendOTP does to the limiter.
use loxtu_go.Base.{
  ℕ, ◌≡◌, ◌⊎◌, refl, inl, inr, Bool, true, false, ◌||◌, not, Option, none, some, Str, bytes,
  is_empty, Bool-cases,
}
use loxtu_go.Base.Strings.{trim_space, contains_byte}
use loxtu_go.Adapters.RateLimit.{MemoryRateLimiter}
use loxtu_go.Handlers.Auth.{AuthHandler, Server, Post, limited}
use loxtu_go.Handlers.Auth.Send.{
  is_delivered, sent_to, send_to, send_allowed, send_email, send_form, send_otp,
}
use loxtu_go.Identity.Otp.{OtpStore, SendResult}
use loxtu_go.Identity.RateLimit.{rate_key_otp_send}
use loxtu_go.Identity.User.{User}
use loxtu_go.Middleware.Request.{form_value}

module _ (sha256 : Str → Str) (store : OtpStore) {W : Type 0} (h : AuthHandler W) where
  sent_to-limiter :
      (post : Post) (email tenant_id : Str) (u : User) (w : W) (limiter : Option MemoryRateLimiter)
      (r : store.State × SendResult)
      → (sent_to sha256 store h post email tenant_id u w limiter r).0.limiter ≡ limiter
  unfolding sent_to
  sent_to-limiter post email tenant_id u w limiter (codes, r) = elim (Bool-cases (is_delivered r)) [
    | inl t ↦ rw t refl
    | inr f ↦ rw f refl
  ]

  send_to-limiter :
      (post : Post) (email tenant_id : Str) (draw : ℕ → Option ℕ) (now : ℕ) (delivered : Bool)
      (codes : store.State) (limiter : Option MemoryRateLimiter) (p : W × Option User)
      → (send_to sha256 store h post email tenant_id draw now delivered codes limiter p).0.limiter
        ≡ limiter
  unfolding send_to
  send_to-limiter post email tenant_id draw now delivered codes limiter (w, none) = refl
  send_to-limiter post email tenant_id draw now delivered codes limiter (w, some u) =
      sent_to-limiter post email tenant_id u w limiter _

  send_allowed-limiter :
      (post : Post) (email : Str) (draw : ℕ → Option ℕ) (now : ℕ) (delivered : Bool)
      (codes : store.State) (w : W) (p : Option MemoryRateLimiter × Bool)
      → (send_allowed sha256 store h post email draw now delivered codes w p).0.limiter ≡ p.0
  unfolding send_allowed
  send_allowed-limiter post email draw now delivered codes w (limiter, false) = refl
  send_allowed-limiter post email draw now delivered codes w (limiter, true) =
      send_to-limiter post email _ draw now delivered codes limiter _

  -- `SendOTP` leaves the limiter alone, or asks it once under a key of sent codes.
  abbrev pub OneSendKey : ℕ → Option MemoryRateLimiter → Option MemoryRateLimiter → Type 0
  OneSendKey now before after =
      (after ≡ before)
      ⊎ ((email : Str) × (after ≡ (limited before (rate_key_otp_send email) now).0))

  send_form-limiter :
      (parsed : Bool) (post : Post) (draw : ℕ → Option ℕ) (now : ℕ) (delivered : Bool)
      (s : Server store.State W)
      → OneSendKey now s.limiter
          (send_form sha256 store h parsed post draw now delivered s).0.limiter
  unfolding send_form send_email
  send_form-limiter false post draw now delivered s = inl refl
  send_form-limiter true post draw now delivered s =
      let email = trim_space (form_value post.request (bytes "email")) in
      elim (Bool-cases (is_empty email || not (contains_byte email b'@'))) [
        | inl t ↦ inl (rw t refl)
        | inr f ↦ inr (
          email,
          rw f (
              send_allowed-limiter post email draw now delivered s.codes s.world
                (limited s.limiter (rate_key_otp_send email) now)),
        )
      ]

  pub send_otp-limiter :
      (post : Post) (draw : ℕ → Option ℕ) (now : ℕ) (delivered : Bool) (s : Server store.State W)
      → OneSendKey now s.limiter (send_otp sha256 store h post draw now delivered s).0.limiter
  unfolding send_otp
  send_otp-limiter post draw now delivered s =
      send_form-limiter post.is_parsed post draw now delivered s
