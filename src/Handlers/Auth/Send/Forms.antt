-- ===== src/Handlers/Auth/Send/Forms.antt =====
-- internal/interfaces/http/handlers/auth_handler.go: what an answer of SendOTP rests on that asks for
-- the code.
use loxtu_go.Base.{
  ℕ, ◌≡◌, refl, inl, inr, Bool, true, false, ◌||◌, not, Option, none, some, Str, bytes, is_empty,
  Bool-cases,
}
use loxtu_go.Base.Strings.{trim_space, contains_byte}
use loxtu_go.Adapters.RateLimit.{MemoryRateLimiter}
use loxtu_go.Handlers.Auth.{AuthHandler, Server, Post, otp_form, limited}
use loxtu_go.Handlers.Auth.Send.{
  is_delivered, sent_to, send_to, send_allowed, send_email, send_form, send_otp,
}
use loxtu_go.Identity.Otp.{OtpStore, SendResult, send}
use loxtu_go.Identity.RateLimit.{rate_key_otp_send}
use loxtu_go.Identity.User.{User}
use loxtu_go.Middleware.Request.{form_value}

module _ (sha256 : Str → Str) (store : OtpStore) {W : Type 0} (h : AuthHandler W) where
  sent_to-form :
      (post : Post) (addr tenant_id email hash : Str) (u : User) (w : W)
      (limiter : Option MemoryRateLimiter) (p : store.State × SendResult)
      → (sent_to sha256 store h post addr tenant_id u w limiter p).1.page ≡ otp_form email hash
      → (addr ≡ email)
        × (u.user_id_hash ≡ hash)
        × ((sent_to sha256 store h post addr tenant_id u w limiter p).0.codes ≡ p.0)
  unfolding sent_to
  sent_to-form post addr tenant_id email hash u w limiter (codes, r) e =
      elim (Bool-cases (is_delivered r)) [
        | inl t ↦
            let f : otp_form addr u.user_id_hash ≡ otp_form email hash = rw t at e in
            rw t (cc, cc, refl)
        | inr f ↦ absurd (cc (rw f at e))
      ]

  send_to-form :
      (post : Post) (addr tenant_id email hash : Str) (draw : ℕ → Option ℕ) (now : ℕ)
      (delivered : Bool) (codes : store.State) (limiter : Option MemoryRateLimiter)
      (p : W × Option User)
      → (send_to sha256 store h post addr tenant_id draw now delivered codes limiter p).1.page
        ≡ otp_form email hash
      → (send_to sha256 store h post addr tenant_id draw now delivered codes limiter p).0.codes
        ≡ (send sha256 store h.otp codes email hash draw now delivered).0
  unfolding send_to
  send_to-form post addr tenant_id email hash draw now delivered codes limiter (w, none) e =
      absurd cc
  send_to-form post addr tenant_id email hash draw now delivered codes limiter (w, some u) e =
      let (same, named, f) = sent_to-form post addr tenant_id email hash u w limiter _ e in
      rw (← same, ← named) f

  send_allowed-form :
      (post : Post) (addr email hash : Str) (draw : ℕ → Option ℕ) (now : ℕ) (delivered : Bool)
      (codes : store.State) (w : W) (p : Option MemoryRateLimiter × Bool)
      → (send_allowed sha256 store h post addr draw now delivered codes w p).1.page
        ≡ otp_form email hash
      → (send_allowed sha256 store h post addr draw now delivered codes w p).0.codes
        ≡ (send sha256 store h.otp codes email hash draw now delivered).0
  unfolding send_allowed
  send_allowed-form post addr email hash draw now delivered codes w (limiter, false) e = absurd cc
  send_allowed-form post addr email hash draw now delivered codes w (limiter, true) e =
      send_to-form post addr _ email hash draw now delivered codes limiter _ e

  send_form-form :
      (parsed : Bool) (post : Post) (email hash : Str) (draw : ℕ → Option ℕ) (now : ℕ)
      (delivered : Bool) (s : Server store.State W)
      → (send_form sha256 store h parsed post draw now delivered s).1.page ≡ otp_form email hash
      → (send_form sha256 store h parsed post draw now delivered s).0.codes
        ≡ (send sha256 store h.otp s.codes email hash draw now delivered).0
  unfolding send_form send_email
  send_form-form false post email hash draw now delivered s e = absurd cc
  send_form-form true post email hash draw now delivered s e =
      let addr = trim_space (form_value post.request (bytes "email")) in
      elim (Bool-cases (is_empty addr || not (contains_byte addr b'@'))) [
        | inl t ↦ absurd (cc (rw t at e))
        | inr f ↦ rw f (
            send_allowed-form post addr email hash draw now delivered s.codes s.world
              (limited s.limiter (rate_key_otp_send addr) now) (rw f at e))
      ]

  pub send_otp-form :
      (post : Post) (email hash : Str) (draw : ℕ → Option ℕ) (now : ℕ) (delivered : Bool)
      (s : Server store.State W)
      → (send_otp sha256 store h post draw now delivered s).1.page ≡ otp_form email hash
      → (send_otp sha256 store h post draw now delivered s).0.codes
        ≡ (send sha256 store h.otp s.codes email hash draw now delivered).0
  unfolding send_otp
  send_otp-form post email hash draw now delivered s e =
      send_form-form post.is_parsed post email hash draw now delivered s e
