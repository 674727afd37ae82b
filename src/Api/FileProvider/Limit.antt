-- ===== src/Api/FileProvider/Limit.antt =====
-- The limit of `Load` of api/file_provider.go.
use cli.Base.{
  ℕ, zero, suc, ◌≤◌, String, ◌≡◌, refl, sym, ◌∙◌, ap, subst, ◌↔◌, none, arith, Option-cases, inl,
  inr,
}
use cli.Base.Results.{Result, ok, err}
use cli.Jwt.Local.{Os, OsLaws, error_text}
use cli.Api.FileProvider.{max_config_file_bytes, limited, load, save}

abbrev pub size : String → ℕ
size String.[] = 0
size (String.◌∷◌ c s) = suc (size s)

size-limited : (n : ℕ) (s : String) → size (limited n s) ≤ n
unfolding limited
size-limited zero s = omega arith
size-limited (suc n) String.[] = omega arith
size-limited (suc n) (String.◌∷◌ c s) = omega (arith, size-limited n s)

limited-all : (n : ℕ) (s : String) → size s ≤ n → limited n s ≡ s
unfolding limited
limited-all zero String.[] h = refl
limited-all zero (String.◌∷◌ c s) h = absurd (omega (arith, h))
limited-all (suc n) String.[] h = refl
limited-all (suc n) (String.◌∷◌ c s) h =
    ap (λ t. String.◌∷◌ c t) (limited-all n s (omega (arith, h)))

abbrev text_of : Result String String → String
text_of (ok t) = t
text_of (err e) = e

module _ (os : Os) (laws : OsLaws os) (path : String) where
  load-written :
      (bytes : String) (fs : os.Fs)
      → (save os path bytes fs).1 ≡ none
      → load os path (save os path bytes fs).0 ≡ ok (limited max_config_file_bytes bytes)
  unfolding load save
  load-written bytes fs e = elim (Option-cases (os.write_file path bytes fs).1) [
    | inl fine ↦ rw (laws.read-write path bytes fs fine) refl
    | inr (f, failed) ↦ absurd (ground (arith, ap error_text failed, e))
  ]

  -- Over a file system that reads back what it wrote: a configuration that was saved without an error
  -- loads as it was saved exactly when it is not longer than the limit of the load.
  pub load-save :
      (bytes : String) (fs : os.Fs)
      → (save os path bytes fs).1 ≡ none
      → (load os path (save os path bytes fs).0 ≡ ok bytes) ↔ (size bytes ≤ max_config_file_bytes)
  load-save bytes fs e =
      let loads = load-written bytes fs e in
      (
        (λ whole.
            subst (λ t. size t ≤ max_config_file_bytes) (ap text_of (sym loads ∙ whole))
              (size-limited max_config_file_bytes bytes)),
        (λ short. loads ∙ ap ok (limited-all max_config_file_bytes bytes short)),
      )
