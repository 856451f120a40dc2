-- ===== src/Storage/Presign/Tokens.antt =====
-- What a token of app/storage/presign.py is worth
use why_combinator.Prelude.{
  ℕ, ◌+◌, ◌/◌, ◌≤◌, ◌<◌, ◌≡◌, refl, sym, ◌∙◌, ap, subst, inl, inr, String, ◌&&◌, Option, none, some,
  arith, leb, if◌then◌else◌, ◌==◌, nat_has_eq, text_has_eq, ==-refl, ==→eq, ok, raise, Bool-cases,
  Option-cases, Outcome-cases, raise-ne-ok, ok-injective,
}
use why_combinator.Prelude.Integers.{ℤ, pos, negsuc}
use why_combinator.Prelude.Texts.{split_at_dot, split-append}
use why_combinator.Db.Models.{Uuid, Instant, seconds}
use why_combinator.Storage.Presign.{
  expired, scope_mismatch, ArtifactDownloadClaims, TokenPayload, TokenCodec, normalize_ttl_seconds,
  longest_ttl, min_of, signed, create_artifact_download_token, check_payload,
  validate_artifact_download_token,
}

module _ (codec : TokenCodec) (default_ttl max_ttl : ℤ) where
  validate-signed :
      (p : TokenPayload) (a s : Uuid) (now : Instant)
      → validate_artifact_download_token codec default_ttl max_ttl
          (signed codec default_ttl max_ttl (codec.dumps p))
          a
          s
          now
        ≡ check_payload codec default_ttl max_ttl a s now (some p)
  unfolding validate_artifact_download_token
  validate-signed p a s now =
      rw
        (
          split-append (codec.dumps p) (codec.sign (codec.dumps p)) (codec.without_dot p),
          ==-refl (codec.sign (codec.dumps p)),
          codec.loads-dumps p,
          validate_artifact_download_token,
        )
        refl

  longest_pos : 1 ≤ longest_ttl codec default_ttl max_ttl
  longest_pos = elim max_ttl as (λ m. 1 ≤ longest_ttl codec default_ttl m) [
    | pos m ↦ ground arith
    | negsuc m ↦ omega arith
  ]

  bounds_of :
      (t : ℤ) (n : ℕ)
      → normalize_ttl_seconds codec default_ttl max_ttl (some t) ≡ ok n
      → (1 ≤ n) × (n ≤ longest_ttl codec default_ttl max_ttl)
  unfolding normalize_ttl_seconds
  bounds_of (negsuc m) n e = absurd (raise-ne-ok _ n e)
  bounds_of (pos m) n e = elim (Bool-cases (leb m 0)) [
    | inl y ↦ absurd (raise-ne-ok _ n (rw y at e))
    | inr f ↦
        let got : min_of m (longest_ttl codec default_ttl max_ttl) ≡ n =
          ok-injective _ _ (rw f at e) in
        let some_time : 1 ≤ longest_ttl codec default_ttl max_ttl = longest_pos in
        ground (arith, got, some_time, f)
  ]

  ttl-bounds :
      (ttl : Option ℤ) (n : ℕ)
      → normalize_ttl_seconds codec default_ttl max_ttl ttl ≡ ok n
      → (1 ≤ n) × (n ≤ longest_ttl codec default_ttl max_ttl)
  unfolding normalize_ttl_seconds
  ttl-bounds none n e = bounds_of default_ttl n e
  ttl-bounds (some t) n e = bounds_of t n e

  -- A token that has been created is accepted for its artifact and submission until the whole second in
  -- which it expires, for nothing else, and no later. It expires after it was issued, no later than the
  -- longest time to live allows, and less than a second before the time that is returned with it.
  pub token_lem :
      (a s a' s' : Uuid) (ttl : Option ℤ) (issued now expires : Instant) (token : String)
      → create_artifact_download_token codec default_ttl max_ttl a s ttl issued
        ≡ ok (token, expires)
      → let end = seconds (expires / 1_000_000) in
        (validate_artifact_download_token codec default_ttl max_ttl token a' s' now ≡ (
          if (a == a') && (s == s')
          then (if leb end now
              then raise expired
              else ok (record { artifact_id = a; submission_id = s; expires_at = end }))
          else raise scope_mismatch))
        × (issued < expires)
        × (expires ≤ issued + seconds (longest_ttl codec default_ttl max_ttl))
        × (end ≤ expires)
        × (expires < end + seconds 1)
  unfolding create_artifact_download_token check_payload
  token_lem a s a' s' ttl issued now expires token e =
      elim (Outcome-cases (normalize_ttl_seconds codec default_ttl max_ttl ttl)) [
        | inl (x, f) ↦
            absurd (raise-ne-ok x (token, expires) (rw (f, create_artifact_download_token) at e))
        | inr (n, f) ↦
            let made = ok-injective _ _ (rw (f, create_artifact_download_token) at e) in
            let (low, high) = ttl-bounds ttl n f in
            let returned : issued + seconds n ≡ expires = ap (λ (r : String × Instant). r.1) made in
            let valid =
              subst
                (λ (r : String × Instant).
                  validate_artifact_download_token codec default_ttl max_ttl r.0 a' s' now
                  ≡ check_payload codec default_ttl max_ttl a' s' now
                      (some (record { aid = a; sid = s; exp = r.1 / 1_000_000 })))
                made
                (validate-signed
                  (record { aid = a; sid = s; exp = (issued + seconds n) / 1_000_000 }) a' s'
                  now) in
            (
              valid,
              omega (arith, returned, low),
              omega (arith, returned, high),
              omega arith,
              omega arith,
            )
      ]

  payload-ok :
      (a s : Uuid) (now : Instant) (p : TokenPayload) (claims : ArtifactDownloadClaims)
      → check_payload codec default_ttl max_ttl a s now (some p) ≡ ok claims
      → (p.aid ≡ a)
        × (p.sid ≡ s)
        × (now < seconds p.exp)
        × (claims
            ≡ record { artifact_id = p.aid; submission_id = p.sid; expires_at = seconds p.exp })
  unfolding check_payload
  payload-ok a s now p claims e = elim (Bool-cases ((p.aid == a) && (p.sid == s))) [
    | inr f ↦ absurd (raise-ne-ok scope_mismatch claims (rw f at e))
    | inl t ↦ elim (Bool-cases (leb (seconds p.exp) now)) [
      | inl y ↦ absurd (raise-ne-ok expired claims (rw (t, y) at e))
      | inr n ↦ (
        ground (arith, t, ==→eq p.aid a),
        ground (arith, t, ==→eq p.sid s),
        ground (arith, n),
        sym (ok-injective _ _ (rw (t, n) at e)),
      )
    ]
  ]

  -- A token is accepted only if what stands before its first dot is followed by its signature, and is the
  -- payload of the artifact and the submission that are asked for, with a second of expiry still to come;
  -- these are the claims.
  pub accepted_is_signed :
      (token : String) (a s : Uuid) (now : Instant) (claims : ArtifactDownloadClaims)
      → validate_artifact_download_token codec default_ttl max_ttl token a s now ≡ ok claims
      → (encoded : String) × (p : TokenPayload) × (split_at_dot token
          ≡ some (encoded, codec.sign encoded))
        × (codec.loads encoded ≡ some p)
        × (p.aid ≡ a)
        × (p.sid ≡ s)
        × (now < seconds p.exp)
        × (claims ≡ record { artifact_id = a; submission_id = s; expires_at = seconds p.exp })
  unfolding validate_artifact_download_token check_payload
  accepted_is_signed token a s now claims e = elim (Option-cases (split_at_dot token)) [
    | inl n ↦ absurd (raise-ne-ok _ claims (rw (n, validate_artifact_download_token) at e))
    | inr (parts, h) ↦ elim (Bool-cases (parts.1 == codec.sign parts.0)) [
      | inr n ↦ absurd (raise-ne-ok _ claims (rw (h, n, validate_artifact_download_token) at e))
      | inl t ↦ elim (Option-cases (codec.loads parts.0)) [
        | inl n ↦
            absurd (raise-ne-ok _ claims (rw (h, t, n, validate_artifact_download_token) at e))
        | inr (p, l) ↦
            let (aid, sid, later, made) =
              payload-ok a s now p claims (rw (h, t, l, validate_artifact_download_token) at e) in
            let signature : parts.1 ≡ codec.sign parts.0 = ==→eq parts.1 (codec.sign parts.0) t in
            (
              parts.0,
              p,
              h ∙ ap (λ x. some (parts.0, x)) signature,
              l,
              aid,
              sid,
              later,
              made ∙ rw (aid, sid) refl,
            )
      ]
    ]
  ]
