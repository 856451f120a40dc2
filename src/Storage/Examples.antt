-- ===== src/Storage/Examples.antt =====
-- A token that is created and accepted, and the theorems at it.
use Prim.Native.Char.{code}
use Prim.Native.String.{[], ◌∷◌}
use why_combinator.Prelude.{
  ℕ, zero, suc, ◌+◌, ◌/◌, ◌≤◌, ◌<◌, ◌≡◌, refl, String, ◌&&◌, Option, none, some, nat_beq,
  if◌then◌else◌, leb, ok, raise, ◌==◌, nat_has_eq,
}
use why_combinator.Prelude.Integers.{pos}
use why_combinator.Prelude.Texts.{append, split_at_dot}
use why_combinator.Platform.Uuids.{tally}
use why_combinator.Db.Models.{Uuid, seconds}
use why_combinator.Storage.Presign.{
  ArtifactDownloadClaims, TokenPayload, TokenCodec, expired, scope_mismatch, longest_ttl, signed,
  normalize_ttl_seconds, create_artifact_download_token, validate_artifact_download_token,
}
use why_combinator.Storage.Presign.Tokens.{token_lem, accepted_is_signed}

-- A payload as three tallies, each with a colon behind it.
abbrev write : ℕ → String → String
write n s = append (tally n) (append ":" s)

abbrev dumps : TokenPayload → String
dumps p = write p.aid (write p.sid (write p.exp ""))

abbrev read : String → ℕ × String
read [] = (0, [])
read (c ∷ s) = let rest = read s in if nat_beq (code c) 0 then (suc rest.0, rest.1) else (0, s)

abbrev loads : String → Option TokenPayload
loads s =
    let a = read s in let b = read a.1 in some (record { aid = a.0; sid = b.0; exp = (read b.1).0 })

read-write : (n : ℕ) (s : String) → read (write n s) ≡ (n, s)
read-write zero s = refl
read-write (suc n) s = rw (read-write n s) refl

write-without_dot : (n : ℕ) (s : String) → split_at_dot s ≡ none → split_at_dot (write n s) ≡ none
unfolding split_at_dot
write-without_dot zero s e = rw e refl
write-without_dot (suc n) s e = rw (write-without_dot n s e) refl

loads-dumps : (p : TokenPayload) → loads (dumps p) ≡ some p
loads-dumps p =
    rw
      (
        read-write p.aid (write p.sid (write p.exp "")),
        read-write p.sid (write p.exp ""),
        read-write p.exp "",
      )
      refl

dumps-without_dot : (p : TokenPayload) → split_at_dot (dumps p) ≡ none
dumps-without_dot p = write-without_dot p.aid (write p.sid (write p.exp "")) (
    write-without_dot p.sid (write p.exp "")
      (write-without_dot p.exp "" (unfold split_at_dot in refl)))

abbrev codec : TokenCodec
codec = record {
  dumps = dumps;
  loads = loads;
  sign = λ s. append "signed:" s;
  loads-dumps = loads-dumps;
  without_dot = dumps-without_dot;
}

abbrev artifact : Uuid
artifact = 1

abbrev submission : Uuid
submission = 2

-- Of the ten seconds that are asked for three are granted; the token was issued half a second past a full one.
abbrev token : String
token = signed codec (pos 2) (pos 3) (dumps (record { aid = 1; sid = 2; exp = 4 }))

created :
    create_artifact_download_token codec (pos 2) (pos 3) 1 2 (some (pos 10)) 1_500_000
    ≡ ok (token, 4_500_000)
unfolding create_artifact_download_token normalize_ttl_seconds
created = refl

token_lem_example :
    let end = seconds (4_500_000 / 1_000_000) in
    (validate_artifact_download_token codec (pos 2) (pos 3) token 1 2 3_900_000 ≡ (
      if (artifact == artifact) && (submission == submission)
      then (if leb end 3_900_000
          then raise expired
          else ok (record { artifact_id = 1; submission_id = 2; expires_at = end }))
      else raise scope_mismatch))
    × (1_500_000 < 4_500_000)
    × (4_500_000 ≤ 1_500_000 + seconds (longest_ttl codec (pos 2) (pos 3)))
    × (end ≤ 4_500_000)
    × (4_500_000 < end + seconds 1)
token_lem_example =
    token_lem codec (pos 2) (pos 3) 1 2 1 2 (some (pos 10)) 1_500_000 3_900_000 4_500_000 token
      created

abbrev claims : ArtifactDownloadClaims
claims = record { artifact_id = 1; submission_id = 2; expires_at = 4_000_000 }

accepted : validate_artifact_download_token codec (pos 2) (pos 3) token 1 2 3_900_000 ≡ ok claims
accepted =
    (token_lem codec (pos 2) (pos 3) 1 2 1 2 (some (pos 10)) 1_500_000 3_900_000 4_500_000 token
      created).0

accepted_is_signed_example :
    (encoded : String) × (p : TokenPayload) × (split_at_dot token
      ≡ some (encoded, codec.sign encoded))
    × (codec.loads encoded ≡ some p)
    × (p.aid ≡ 1)
    × (p.sid ≡ 2)
    × (3_900_000 < seconds p.exp)
    × (claims ≡ record { artifact_id = 1; submission_id = 2; expires_at = seconds p.exp })
accepted_is_signed_example =
    accepted_is_signed codec (pos 2) (pos 3) token 1 2 3_900_000 claims accepted
