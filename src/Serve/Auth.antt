-- ===== src/Serve/Auth.antt =====
-- The authentication of `serve_configuration`.
use pedge.Prelude.{
  ◌≡◌, ◌⊎◌, inl, inr, refl, true, false, Option, none, some, Bool-cases, Option-cases,
}
use pedge.Exceptions.{ok, err, os_error}
use pedge.Python.Bytes.{Bytes, Str}
use pedge.Python.Number.{strip, is_ascii_space}
use pedge.Python.Path.{join}
use pedge.Serve.{
  Host, send_from_directory, unauthorized, hash_file, configurations_dir, check_auth, requires_auth,
  serve_configuration,
}

-- The request carries credentials whose password the hash of the device's own file verifies.
pub record Granted (host : Host) (device : Str) (auth : Option (Option Str)) : Type 0 where
  pub password : Option Str
  pub contents : Bytes
  pub sent : auth ≡ some password
  pub exists : host.exists (hash_file device) ≡ true
  pub stored : host.read (hash_file device) ≡ some contents
  pub verified : host.verify (strip is_ascii_space contents) password ≡ true

-- A request is granted and gets the file from the device's directory, or is not and gets 401, or has
-- met a hash file that is there and cannot be read.
pub serve_configuration-Granted :
    (host : Host) (device filename : Str) (auth : Option (Option Str))
    → (Granted host device auth
        × (serve_configuration host device filename auth
            ≡ ok (send_from_directory (join configurations_dir device) filename)))
      ⊎ (((Granted host device auth → ⊥)
            × (serve_configuration host device filename auth ≡ ok unauthorized))
          ⊎ ((host.exists (hash_file device) ≡ true)
              × (host.read (hash_file device) ≡ none)
              × (serve_configuration host device filename auth ≡ err os_error)))
unfolding serve_configuration requires_auth check_auth
serve_configuration-Granted host device filename none = inr (inl (λ g. let e = g.sent in cc, refl))
serve_configuration-Granted host device filename (some password) =
    elim (Bool-cases (host.exists (hash_file device))) [
      | inr missing ↦ inr (inl (λ g. let e = g.exists in cc, rw missing refl))
      | inl there ↦ elim (Option-cases (host.read (hash_file device))) [
        | inl failed ↦ inr (inr (there, failed, rw (there, failed) refl))
        | inr (contents, stored) ↦
            elim (Bool-cases (host.verify (strip is_ascii_space contents) password)) [
              | inl verified ↦ inl (
                record {
                  password = password;
                  contents = contents;
                  sent = refl;
                  exists = there;
                  stored = stored;
                  verified = verified;
                },
                rw (there, stored, verified) refl,
              )
              | inr refused ↦ inr (
                  inl (
                    λ g.
                        refusal contents g.contents password g.password stored g.stored g.sent
                          refused g.verified,
                    rw (there, stored, refused) refl,
                  ))
            ]
      ]
    ]
  where
    refusal :
        (c c' : Bytes) (p p' : Option Str)
        → host.read (hash_file device) ≡ some c
        → host.read (hash_file device) ≡ some c'
        → some p ≡ some p'
        → host.verify (strip is_ascii_space c) p ≡ false
        → host.verify (strip is_ascii_space c') p' ≡ true
        → ⊥
    refusal c c' p p' a b e f g = cc
