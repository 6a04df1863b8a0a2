-- ===== src/Sessions/Warmup/Refused.antt =====
-- routes/sessions of the API: what a warm-up start leaves that is refused for its fingerprint.
use brand_blitz.Prelude.{Bool, true, false}
use brand_blitz.Sessions.Routes.{Result, ok, err}

-- Whether a reply is an error.
abbrev pub is_error {ℓ} : {A : Type ℓ} → Result A → Bool
is_error (err e) = true
is_error (ok a) = false
