-- ===== src/Identity/User/Tests.antt =====
-- Handles and masked addresses at concrete inputs.
use loxtu_go.Base.{[], ◌∷◌, Str}
use loxtu_go.Identity.User.Handle.{IsParts}

abbrev acme : Str
acme = 97 ∷ 99 ∷ []

acme-IsParts : IsParts acme (7 ∷ 8 ∷ [])
acme-IsParts = ((λ e. cc), (λ e. cc), ((λ e. cc), ((λ e. cc), tt)))

abbrev a_handle : Str
a_handle = 97 ∷ 58 ∷ 8 ∷ []
