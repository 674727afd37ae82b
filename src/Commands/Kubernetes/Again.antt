-- ===== src/Commands/Kubernetes/Again.antt =====
-- Two runs of `exec-credential`, one after the other.
use cli.Base.{
  ℕ, ◌≡◌, ◌≢◌, refl, ap, ◌∙◌, sym, subst, String, false, Option, none, some, [], ◌∷◌, arith,
}
use cli.Base.Results.{Result, ok, err}
use cli.Net.{Url}
use cli.Jwt.Local.{Os, OsLaws}
use cli.Tunnel.Config.{TlsConfig}
use cli.Authclient.{FetchError, AuthConfig, check_bearer_token}
use cli.Commands.Paths.{last_url_path, cache_last_url, cache_at}
use cli.Commands.Credentials.{
  ExecCredential, ExecCredentialStatus, CredentialError, ReadsBack, is_expired,
  load_cached_credential, save_cached_credential, cached_credential_path, parse_token,
}
use cli.Commands.Credentials.Saved.{IsSaved, save-IsSaved, load-IsSaved}
use cli.Commands.Kubernetes.{
  Flags, World, Run, exec_credential, auth_config, tls_of, with_tls, at_url, loaded, of_status,
  checked, logged_in, parsed, saved,
}

module _ (os : Os) (laws : OsLaws os) (w : World os) (reads : ReadsBack w.json) (flags : Flags)
    (u : Url) where
  abbrev Saved : ExecCredential → os.Fs → Type 0
  Saved = IsSaved w.directories w.hash os laws w.json reads w.dir w.close (w.text u)

  module _ (login : AuthConfig → Url → Result FetchError String) (now : ℕ) where
    -- The run ends without an error behind a login, and prints the credential.
    abbrev pub Fresh : ExecCredential → Run os → Type 0
    Fresh creds r = (r.error ≡ none) × (r.logins ≡ 1) × (r.printed ≡ creds ∷ [])

    saved-Fresh :
        (made : ExecCredential) (x : os.Fs × Option CredentialError) (creds : ExecCredential)
        → (saved os w flags login now made x).error ≡ none
        → (saved os w flags login now made x).printed ≡ creds ∷ []
        → (x ≡ ((saved os w flags login now made x).fs, none)) × (made ≡ creds)
    saved-Fresh made (fs, some e) creds h p = absurd (ground (arith, h))
    saved-Fresh made (fs, none) creds h p = (refl, ground (arith, p))

    -- What a run that printed the credential behind a login leaves in the cache.
    parsed-Saved :
        (fs : os.Fs) (o : Result CredentialError ExecCredential) (creds : ExecCredential)
        → (parsed os w flags login now u fs o).error ≡ none
        → (parsed os w flags login now u fs o).printed ≡ creds ∷ []
        → Saved creds (parsed os w flags login now u fs o).fs
    parsed-Saved fs (err e) creds h p = absurd (ground (arith, h))
    parsed-Saved fs (ok made) creds h p =
        let x =
          save_cached_credential w.directories w.hash os w.json w.dir w.close (w.text u) made fs in
        let r = saved os w flags login now made x in
        let (stored, same) = saved-Fresh made x creds h p in
        subst (λ c. Saved c r.fs) same
          (save-IsSaved w.directories w.hash os laws w.json reads w.dir w.close (w.text u) made fs
            r.fs stored)

    logged_in-Saved :
        (fs : os.Fs) (o : Result FetchError String) (creds : ExecCredential)
        → (logged_in os w flags login now u fs o).error ≡ none
        → (logged_in os w flags login now u fs o).printed ≡ creds ∷ []
        → Saved creds (logged_in os w flags login now u fs o).fs
    logged_in-Saved fs (err e) creds h p = absurd (ground (arith, h))
    logged_in-Saved fs (ok raw_jwt) creds h p =
        parsed-Saved fs (parse_token w.decoder raw_jwt) creds h p

    checked-Saved :
        (ac : AuthConfig) (fs : os.Fs) (old : ExecCredential) (o : Option FetchError)
        (creds : ExecCredential)
        → Fresh creds (checked os w flags login now ac u fs old o)
        → Saved creds (checked os w flags login now ac u fs old o).fs
    checked-Saved ac fs old none creds (h, l, p) = absurd (omega (arith, l))
    checked-Saved ac fs old (some e) creds (h, l, p) = logged_in-Saved fs (login ac u) creds h p

    of_status-Saved :
        (ac : AuthConfig) (fs : os.Fs) (old : ExecCredential) (o : Option ExecCredentialStatus)
        (creds : ExecCredential)
        → Fresh creds (of_status os w flags login now ac u fs old o)
        → Saved creds (of_status os w flags login now ac u fs old o).fs
    of_status-Saved ac fs old none creds (h, l, p) = logged_in-Saved fs (login ac u) creds h p
    of_status-Saved ac fs old (some s) creds f =
        checked-Saved ac fs old (check_bearer_token w.http ac u s.token) creds f

    loaded-Saved :
        (ac : AuthConfig) (x : os.Fs × Result CredentialError ExecCredential)
        (creds : ExecCredential)
        → Fresh creds (loaded os w flags login now ac u x)
        → Saved creds (loaded os w flags login now ac u x).fs
    loaded-Saved ac (fs, err e) creds (h, l, p) = logged_in-Saved fs (login ac u) creds h p
    loaded-Saved ac (fs, ok old) creds f = of_status-Saved ac fs old old.status creds f

  -- The file of the last URL is not the server's.
  abbrev pub Apart : Type 0
  Apart =
      (p q : String)
      → last_url_path w.directories ≡ ok p
      → cached_credential_path w.directories w.hash (w.text u) ≡ ok q
      → p ≢ q

  cache_last_url-Saved :
      (raw : String) (creds : ExecCredential) (fs : os.Fs) (o : Result String String)
      → Apart
      → last_url_path w.directories ≡ o
      → Saved creds fs
      → Saved creds (cache_at w.directories os raw fs o)
  cache_last_url-Saved raw creds fs (err e) apart h k = k
  cache_last_url-Saved raw creds fs (ok p) apart h (fn, q, (text, c, r)) =
      (fn, q, (text, c, laws.read-write_other p fn raw fs (apart p fn h q) ∙ r))

  -- The run of a server's URL.
  exec-at :
      (login : AuthConfig → Url → Result FetchError String) (now : ℕ) (raw : String)
      (tls : Option TlsConfig) (fs : os.Fs)
      → w.parse raw ≡ ok u
      → tls_of os w flags login now u ≡ ok tls
      → exec_credential os w flags login now (raw ∷ []) fs
        ≡ loaded os w flags login now (auth_config os w flags login now tls) u (
            load_cached_credential w.directories w.hash os w.json now
              (w.text u)
              (cache_last_url w.directories os raw fs))
  unfolding exec_credential
  exec-at login now raw tls fs p t =
      let fs' = cache_last_url w.directories os raw fs in
      ap (at_url os w flags login now fs') p ∙ ap (with_tls os w flags login now u fs') t

  -- The second run.
  accepted :
      (login : AuthConfig → Url → Result FetchError String) (now : ℕ) (ac : AuthConfig)
      (creds : ExecCredential) (s : ExecCredentialStatus) (fs : os.Fs)
      → Saved creds fs
      → creds.status ≡ some s
      → is_expired now s ≡ false
      → check_bearer_token w.http ac u s.token ≡ none
      → loaded os w flags login now ac u
          (load_cached_credential w.directories w.hash os w.json now (w.text u) fs)
        ≡ record { fs = fs; printed = creds ∷ []; logins = 0; error = none }
  accepted login now ac creds s fs k st e c =
      ap (loaded os w flags login now ac u) (
        load-IsSaved w.directories w.hash os laws w.json reads w.dir w.close now (w.text u) creds s
          fs k st e)
      ∙ ap (of_status os w flags login now ac u fs creds) st
      ∙ ap (checked os w flags login now ac u fs creds) c

  -- Over a file system that reads back what it wrote, JSON that decodes what it encodes, and files
  -- of the server and of the last URL that differ: when a run for a server ended behind a login and
  -- printed a credential, then a run of the same arguments behind it, at a time at which that is not
  -- expired, while the server accepts its token, prints the same credential, without a login, and
  -- changes nothing but the last URL.
  pub exec-again :
      (login login' : AuthConfig → Url → Result FetchError String) (now now' : ℕ) (raw : String)
      (tls : Option TlsConfig) (creds : ExecCredential) (s : ExecCredentialStatus) (fs : os.Fs)
      → Apart
      → w.parse raw ≡ ok u
      → tls_of os w flags login now u ≡ ok tls
      → Fresh login now creds (exec_credential os w flags login now (raw ∷ []) fs)
      → creds.status ≡ some s
      → is_expired now' s ≡ false
      → check_bearer_token w.http (auth_config os w flags login now tls) u s.token ≡ none
      → exec_credential os w flags login' now'
          (raw ∷ [])
          (exec_credential os w flags login now (raw ∷ []) fs).fs
        ≡ record {
          fs =
              cache_last_url w.directories os raw
                (exec_credential os w flags login now (raw ∷ []) fs).fs;
          printed = creds ∷ [];
          logins = 0;
          error = none;
        }
  exec-again login login' now now' raw tls creds s fs apart p t fresh st e c =
      let r = exec_credential os w flags login now (raw ∷ []) fs in
      let ac = auth_config os w flags login now tls in
      let x =
        load_cached_credential w.directories w.hash os w.json now (w.text u)
          (cache_last_url w.directories os raw fs) in
      let same : r ≡ loaded os w flags login now ac u x = exec-at login now raw tls fs p t in
      let kept : Saved creds r.fs =
        subst (λ q. Saved creds q.fs) (sym same)
          (loaded-Saved login now ac x creds (subst (Fresh login now creds) same fresh)) in
      exec-at login' now' raw tls r.fs p t
      ∙ accepted login' now' ac creds s (cache_last_url w.directories os raw r.fs)
          (unfold cache_last_url in
            cache_last_url-Saved raw creds r.fs (last_url_path w.directories) apart refl kept)
          st e c
