-- ===== src/Commands/Credentials/Saved.antt =====
-- The loading of a credential that was saved.
use cli.Base.{
  ◌≡◌, refl, ap, ◌∙◌, subst, String, Bool, true, false, Option, none, some, arith, if◌then◌else◌, ℕ,
}
use cli.Base.Results.{Result, ok, err}
use cli.Jwt.Local.{Os, OsLaws, OsError}
use cli.Commands.Paths.{Directories}
use cli.Commands.Credentials.{
  ExecCredential, ExecCredentialStatus, expired, Json, ReadsBack, is_expired,
  load_cached_credential, save_cached_credential, cached_credential_path, written, encoded, created,
  made, save_at, load_at, of_text, of_json, of_status, removed,
}

module _ (x : Directories) (hash : String → String) (os : Os) (laws : OsLaws os) (json : Json)
    (reads : ReadsBack json) (dir : String → String) (close : String → Option OsError) where
  written-none :
      (fn : String) (r : os.Fs × Option OsError) (fs' : os.Fs)
      → written x hash os json dir close fn r ≡ (fs', none)
      → (r.0 ≡ fs') × (r.1 ≡ none)
  written-none fn (fs, some e) fs' h = absurd (ground (arith, h))
  written-none fn (fs, none) fs' h = (ap (λ p. p.0) h, refl)

  -- What the file holds behind a save that reports no error.
  abbrev Holds : String → ExecCredential → os.Fs → Type 0
  Holds fn creds fs =
      (text : String) × (json.encode creds ≡ ok text) × (os.read_file fn fs ≡ ok text)

  encoded-Holds :
      (fn : String) (creds : ExecCredential) (fs fs' : os.Fs) (r : Result String String)
      → json.encode creds ≡ r
      → encoded x hash os json dir close fn fs r ≡ (fs', none)
      → Holds fn creds fs'
  encoded-Holds fn creds fs fs' (err e) c h = absurd (ground (arith, h))
  encoded-Holds fn creds fs fs' (ok text) c h =
      let (same, fine) = written-none fn (os.write_file fn text fs) fs' h in
      (text, c, subst (λ f. os.read_file fn f ≡ ok text) same (laws.read-write fn text fs fine))

  created-Holds :
      (fn : String) (creds : ExecCredential) (r : os.Fs × Option OsError) (fs' : os.Fs)
      → created x hash os json dir close fn creds r ≡ (fs', none)
      → Holds fn creds fs'
  created-Holds fn creds (fs, some e) fs' h = absurd (ground (arith, h))
  created-Holds fn creds (fs, none) fs' h = encoded-Holds fn creds fs fs' (json.encode creds) refl h

  made-Holds :
      (fn : String) (creds : ExecCredential) (r : os.Fs × Option OsError) (fs' : os.Fs)
      → made x hash os json dir close fn creds r ≡ (fs', none)
      → Holds fn creds fs'
  made-Holds fn creds (fs, some e) fs' h = absurd (ground (arith, h))
  made-Holds fn creds (fs, none) fs' h = created-Holds fn creds (os.write_file fn "" fs) fs' h

  save_at-Holds :
      (p : Result String String) (creds : ExecCredential) (fs fs' : os.Fs)
      → save_at x hash os json dir close creds fs p ≡ (fs', none)
      → (fn : String) × (p ≡ ok fn) × Holds fn creds fs'
  save_at-Holds (err e) creds fs fs' h = absurd (ground (arith, h))
  save_at-Holds (ok fn) creds fs fs' h =
      (fn, refl, made-Holds fn creds (os.mkdir_all (dir fn) fs) fs' h)

  -- The file of the server holds the credential.
  abbrev pub IsSaved : String → ExecCredential → os.Fs → Type 0
  IsSaved server_url creds fs =
      (fn : String) × (cached_credential_path x hash server_url ≡ ok fn) × Holds fn creds fs

  pub save-IsSaved :
      (server_url : String) (creds : ExecCredential) (fs fs' : os.Fs)
      → save_cached_credential x hash os json dir close server_url creds fs ≡ (fs', none)
      → IsSaved server_url creds fs'
  unfolding save_cached_credential
  save-IsSaved server_url creds fs fs' h =
      save_at-Holds (cached_credential_path x hash server_url) creds fs fs' h

  unexpired :
      (fn : String) (fs : os.Fs) (creds : ExecCredential) (b : Bool)
      → b ≡ false
      → (if b then removed x hash os json 0 fn fs expired else (fs, ok creds)) ≡ (fs, ok creds)
  unexpired fn fs creds true h = absurd (ground (arith, h))
  unexpired fn fs creds false h = refl

  pub load-IsSaved :
      (now : ℕ) (server_url : String) (creds : ExecCredential) (s : ExecCredentialStatus)
      (fs : os.Fs)
      → IsSaved server_url creds fs
      → creds.status ≡ some s
      → is_expired now s ≡ false
      → load_cached_credential x hash os json now server_url fs ≡ (fs, ok creds)
  unfolding load_cached_credential
  load-IsSaved now server_url creds s fs (fn, p, (text, c, r)) st e =
      ap (load_at x hash os json now fs) p
      ∙ ap (of_text x hash os json now fn fs) r
      ∙ ap (of_json x hash os json now fn fs) (reads creds text c)
      ∙ ap (of_status x hash os json now fn fs creds) st
      ∙ unexpired fn fs creds (is_expired now s) e

  -- Over a file system that reads back what it wrote, and JSON that decodes what it encodes: behind
  -- a save of a credential that reports no error, the credential is loaded from the same server's
  -- file, and nothing is removed, at every time at which it is not expired.
  pub load_cached_credential-save :
      (now : ℕ) (server_url : String) (creds : ExecCredential) (s : ExecCredentialStatus)
      (fs fs' : os.Fs)
      → save_cached_credential x hash os json dir close server_url creds fs ≡ (fs', none)
      → creds.status ≡ some s
      → is_expired now s ≡ false
      → load_cached_credential x hash os json now server_url fs' ≡ (fs', ok creds)
  load_cached_credential-save now server_url creds s fs fs' h st e =
      load-IsSaved now server_url creds s fs' (save-IsSaved server_url creds fs fs' h) st e
