-- ===== src/Storage/Presign.antt =====
-- app/storage/presign.py
pub mod Tokens
use why_combinator.Prelude.{
  ℕ, ◌+◌, ◌/◌, ◌≡◌, String, Bool, true, false, ◌&&◌, Option, none, some, leb, ltb, if◌then◌else◌,
  ◌==◌, nat_has_eq, text_has_eq, max_of, Outcome, ok, raise, ◌>>=◌,
}
use why_combinator.Prelude.Integers.{ℤ, pos, negsuc}
use why_combinator.Prelude.Texts.{append, split_at_dot}
use why_combinator.Db.Models.{Uuid, Instant, seconds}

-- The texts of ArtifactPresignError.
pub data ArtifactPresignError : Type 0 where
  ttl_not_positive invalid_format signature_mismatch malformed_payload scope_mismatch expired :
      ArtifactPresignError

pub record ArtifactDownloadClaims : Type 0 where
  pub artifact_id : Uuid
  pub submission_id : Uuid
  pub expires_at : Instant

-- The JSON object of a token. `exp` counts seconds, here from the start of the year 1 on.
pub record TokenPayload : Type 0 where
  pub aid : Uuid
  pub sid : Uuid
  pub exp : ℕ

-- `dumps` is `json.dumps` and `_urlsafe_b64encode`; `loads` is `_urlsafe_b64decode` and `json.loads` with the
-- conversions of the three fields, and `none` where one of them raises or the JSON is no object. `sign` is
-- the HMAC of a text under the key of the service. base64 texts have no dot.
pub record TokenCodec : Type 0 where
  pub dumps : TokenPayload → String
  pub loads : String → Option TokenPayload
  pub sign : String → String
  pub loads-dumps : (p : TokenPayload) → loads (dumps p) ≡ some p
  pub without_dot : (p : TokenPayload) → split_at_dot (dumps p) ≡ none

abbrev pub min_of : ℕ → ℕ → ℕ
min_of a b = if leb a b then a else b

-- `default_ttl` is ARTIFACT_DOWNLOAD_URL_TTL_SECONDS and `max_ttl` ARTIFACT_DOWNLOAD_URL_MAX_TTL_SECONDS.
module _ (codec : TokenCodec) (default_ttl max_ttl : ℤ) where
  -- `max(1, load_artifact_download_max_ttl_seconds())`
  abbrev pub longest_ttl : ℕ
  longest_ttl = elim max_ttl [ pos m ↦ max_of 1 m | negsuc _ ↦ 1 ]

  unfoldable pub normalize_ttl_seconds : Option ℤ → Outcome ArtifactPresignError ℕ
  normalize_ttl_seconds ttl_seconds =
      let requested : ℤ = elim ttl_seconds [ none ↦ default_ttl | some t ↦ t ] in
      elim requested [
        | negsuc _ ↦ raise ttl_not_positive
        | pos n ↦ if leb n 0 then raise ttl_not_positive else ok (min_of n longest_ttl)
      ]

  abbrev pub signed : (encoded_payload : String) → String
  signed encoded_payload = append encoded_payload (append "." (codec.sign encoded_payload))

  -- The token, and `expires_at`.
  unfoldable pub create_artifact_download_token :
      (artifact_id submission_id : Uuid)
      → (ttl_seconds : Option ℤ) → (issued_at : Instant)
      → Outcome ArtifactPresignError (String × Instant)
  create_artifact_download_token artifact_id submission_id ttl_seconds issued_at =
      normalize_ttl_seconds ttl_seconds >>= λ ttl.
      let expires_at = issued_at + seconds ttl in
      ok (
        signed (
            codec.dumps
              (record { aid = artifact_id; sid = submission_id; exp = expires_at / 1_000_000 })),
        expires_at,
      )

  -- What follows the test of the signature.
  unfoldable pub check_payload :
      (artifact_id submission_id : Uuid)
      → (current_time : Instant) → Option TokenPayload
      → Outcome ArtifactPresignError ArtifactDownloadClaims
  check_payload artifact_id submission_id current_time none = raise malformed_payload
  check_payload artifact_id submission_id current_time (some p) =
      if (p.aid == artifact_id) && (p.sid == submission_id)
      then (if leb (seconds p.exp) current_time
          then raise expired
          else ok
              (record { artifact_id = p.aid; submission_id = p.sid; expires_at = seconds p.exp }))
      else raise scope_mismatch

  -- Tokens are ASCII texts; for others `compare_digest` raises a TypeError.
  unfoldable pub validate_artifact_download_token :
      (token : String)
      → (artifact_id submission_id : Uuid) → (current_time : Instant)
      → Outcome ArtifactPresignError ArtifactDownloadClaims
  validate_artifact_download_token token artifact_id submission_id current_time =
      elim (split_at_dot token) [
        | none ↦ raise invalid_format
        | some (encoded_payload, signature) ↦
            if signature == codec.sign encoded_payload
            then check_payload artifact_id submission_id current_time (codec.loads encoded_payload)
            else raise signature_mismatch
      ]
