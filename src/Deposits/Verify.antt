-- ===== src/Deposits/Verify.antt =====
-- middleware/verify-webhook of the API. Redis keeps the ids of webhooks for 600 s; times are in seconds.
use brand_blitz.Prelude.{
  distance, ℕ, ◌+◌, Bool, false, ◌&&◌, ◌||◌, not, List, [], ◌∷◌, map, Option, none, some, length,
  every, ltb, leb, ◌==◌, if◌then◌else◌,
}
use brand_blitz.Texts.{Text, codes, is_digit, is_blank, has_content, same_text}
use brand_blitz.Scoring.{Number, not_finite, negative, natural}

-- The rows of app_config and the environment's secret; an expiry is a time.
pub record SecretRows : Type 0 where
  pub current : Option Text
  pub pending : Option (Text × Option ℕ)
  pub from_environment : Option Text

pub record Secrets : Type 0 where
  pub current : Text
  pub pending : Option Text

abbrev text_or_empty : Option Text → Text
text_or_empty none = []
text_or_empty (some text) = text

live_pending : Option (Text × Option ℕ) → ℕ → Option Text
live_pending none now = none
live_pending (some (secret, none)) now = none
live_pending (some (secret, some expires_at)) now = if ltb now expires_at then some secret else none

unfoldable pub get_webhook_secrets : SecretRows → ℕ → Secrets
unfolding live_pending
get_webhook_secrets rows now = record {
  current =
      if is_blank (text_or_empty rows.current)
      then text_or_empty rows.from_environment
      else text_or_empty rows.current;
  pending = live_pending rows.pending now;
}

-- A request's headers, the timestamp as `Number` reads it, and its raw body.
pub record WebhookRequest : Type 0 where
  pub signature : Option Text
  pub timestamp : Option Number
  pub webhook_id : Option Text
  pub raw_body : Option Text

pub data Refusal : Type 0 where
  misconfigured missing_signature invalid_signature_format missing_timestamp : Refusal
  missing_webhook_id invalid_timestamp stale raw_body_unavailable invalid_signature : Refusal

pub data Verification : Type 0 where
  accepted : Text → Verification
  refused : Refusal → Verification

until_equals : Text → Text
until_equals [] = []
until_equals (c ∷ rest) = let init = until_equals rest in if c == b'=' then [] else c ∷ init

after_equals : Text → Option Text
after_equals [] = none
after_equals (c ∷ rest) = let tail = after_equals rest in if c == b'=' then some rest else tail

abbrev is_lower_hex : ℕ → Bool
is_lower_hex c = leb b'a' c && leb c b'f'

abbrev is_upper_hex : ℕ → Bool
is_upper_hex c = leb b'A' c && leb c b'F'

abbrev pub is_hex : ℕ → Bool
is_hex c = is_digit c || (is_lower_hex c || is_upper_hex c)

abbrev lower : ℕ → ℕ
lower c = if is_upper_hex c then c + 32 else c

-- The digest of a signature of the form `sha256=` and 64 hexadecimal digits.
unfoldable pub provided_digest : Text → Option Text
unfolding until_equals after_equals
provided_digest header = elim (after_equals header) [
  | none ↦ none
  | some rest ↦
      let hex = until_equals rest in
      if same_text (until_equals header) (codes "sha256") && (length hex == 64 && every is_hex hex)
      then some (map lower hex)
      else none
]

-- `sign` is the HMAC of the crypto module: secret, timestamp and body to a digest in lower-case
-- hexadecimal digits.
module _ (sign : Text → ℕ → Text → Text) where
  abbrev pub matches_signature : Secrets → ℕ → Text → Text → Bool
  matches_signature secrets timestamp body digest =
      same_text (sign secrets.current timestamp body) digest || elim secrets.pending [
        | none ↦ false
        | some secret ↦ not (is_blank secret) && same_text (sign secret timestamp body) digest
      ]

  check_timestamp : Number → ℕ → Option ℕ
  check_timestamp not_finite now = none
  check_timestamp (negative n) now = none
  check_timestamp (natural n) now = if n == 0 then none else some n

  -- The signature over a timestamp that is fresh.
  check_signature : Secrets → ℕ → ℕ → Option Text → Text → Text → Verification
  check_signature secrets timestamp now raw_body digest webhook_id =
      if ltb 300 (distance now timestamp) then refused stale else elim raw_body [
        | none ↦ refused raw_body_unavailable
        | some body ↦
            if matches_signature secrets timestamp body digest
            then accepted webhook_id
            else refused invalid_signature
      ]

  check_headers : Secrets → WebhookRequest → ℕ → Text → Verification
  unfolding check_signature check_timestamp
  check_headers secrets request now digest = elim request.timestamp [
    | none ↦ refused missing_timestamp
    | some number ↦ elim request.webhook_id [
      | none ↦ refused missing_webhook_id
      | some webhook_id ↦
          if not (has_content webhook_id)
          then refused missing_webhook_id
          else elim (check_timestamp number now) [
            | none ↦ refused invalid_timestamp
            | some timestamp ↦
                check_signature secrets timestamp now request.raw_body digest webhook_id
          ]
    ]
  ]

  -- The checks before the id is looked up.
  unfoldable pub verify_request : Secrets → WebhookRequest → ℕ → Verification
  unfolding check_headers provided_digest
  verify_request secrets request now =
      if is_blank secrets.current then refused misconfigured else elim request.signature [
        | none ↦ refused missing_signature
        | some header ↦ elim (provided_digest header) [
          | none ↦ refused invalid_signature_format
          | some digest ↦ check_headers secrets request now digest
        ]
      ]

-- The ids that Redis holds, with the end of their lives.
abbrev pub SeenIds : Type 0
SeenIds = List (Text × ℕ)

abbrev pub is_seen : Text → ℕ → SeenIds → Bool
is_seen webhook_id now [] = false
is_seen webhook_id now ((other, expires_at) ∷ seen) =
    (same_text other webhook_id && ltb now expires_at) || is_seen webhook_id now seen

pub data Admission : Type 0 where
  next : Admission
  duplicate : Admission
  rejected : Refusal → Admission

-- The middleware: whether the handler is run, and the ids then.
unfoldable pub verify_webhook :
    (Text → ℕ → Text → Text) → Secrets → WebhookRequest → ℕ → SeenIds → Admission × SeenIds
unfolding verify_request
verify_webhook sign secrets request now seen = elim (verify_request sign secrets request now) [
  | refused why ↦ (rejected why, seen)
  | accepted webhook_id ↦
      if is_seen webhook_id now seen
      then (duplicate, seen)
      else (next, (webhook_id, now + 600) ∷ seen)
]
