-- ===== src/Adapters/Audit/Service.antt =====
-- internal/core/audit/service.go: an event is persisted, and a critical one is published. The two
-- ports of store.go are parameters; the error of a publication is dropped.
use loxtu_go.Base.{Bool, true, false, Option, none, some, Str}
use loxtu_go.Adapters.Audit.{SecurityEvent, is_critical}

-- A port that is nil is `none`; an error of the store is its text.
pub record Service (W : Type 0) : Type 0 where
  pub store : Option (SecurityEvent → W → W × Option Str)
  pub publisher : Option (SecurityEvent → W → W)

unfoldable pub publish :
    {W : Type 0} → Option (SecurityEvent → W → W) → SecurityEvent → Bool → W → W
publish none e critical w = w
publish (some f) e false w = w
publish (some f) e true w = f e w

unfoldable pub published :
    {W : Type 0} → Service W → SecurityEvent → W × Option Str → W × Option Str
published s e (w, some text) = (w, some text)
published s e (w, none) = (publish s.publisher e (is_critical e) w, none)

unfoldable pub persist :
    {W : Type 0} → Option (SecurityEvent → W → W × Option Str) → SecurityEvent → W → W × Option Str
persist none e w = (w, none)
persist (some f) e w = f e w

unfoldable pub log_security : {W : Type 0} → Service W → SecurityEvent → W → W × Option Str
log_security s e w = published s e (persist s.store e w)
