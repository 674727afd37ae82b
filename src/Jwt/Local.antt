-- ===== src/Jwt/Local.antt =====
-- `LocalCache`: a file for each key, named after the key's hash.
use cli.Base.{ℕ, ◌≡◌, ◌≢◌, String, Option, none, some, arith, Option-cases, inl, inr}
use cli.Base.Results.{Result, ok, err}
use cli.Net.{◌<>◌}
use cli.Jwt.{JwtError, not_found, other, Decoder, check_expiry, Cache, CacheLaws}

-- `os.IsNotExist`, or another error by its text.
pub data OsError : Type 0 where
  not_exist : OsError
  failed : String → OsError

-- The calls of package os, over the state of the file system.
pub record Os : Type 1 where
  pub Fs : Type 0
  pub read_file : String → Fs → Result OsError String
  pub write_file : String → String → Fs → Fs × Option OsError
  pub remove : String → Fs → Fs × Option OsError
  pub mkdir_all : String → Fs → Fs × Option OsError

-- What the calls promise: a file that was written is read back, one that was removed, or that could
-- not be removed since it was not there, is not there, and other files stay as they are.
pub record OsLaws (os : Os) : Type 0 where
  pub read-write :
      (p bytes : String) (fs : os.Fs)
      → (os.write_file p bytes fs).1 ≡ none
      → os.read_file p (os.write_file p bytes fs).0 ≡ ok bytes
  pub read-write_other :
      (p q bytes : String) (fs : os.Fs)
      → p ≢ q
      → os.read_file q (os.write_file p bytes fs).0 ≡ os.read_file q fs
  pub read-remove :
      (p : String) (fs : os.Fs)
      → ((e : String) → (os.remove p fs).1 ≢ some (failed e))
      → os.read_file p (os.remove p fs).0 ≡ err not_exist
  pub read-remove_other :
      (p q : String) (fs : os.Fs) → p ≢ q → os.read_file q (os.remove p fs).0 ≡ os.read_file q fs
  pub read-mkdir :
      (dir q : String) (fs : os.Fs) → os.read_file q (os.mkdir_all dir fs).0 ≡ os.read_file q fs

abbrev text : OsError → String
text not_exist = "file does not exist"
text (failed e) = e

abbrev read : Decoder → ℕ → Result OsError String → String × Option JwtError
read d now (err not_exist) = ("", some not_found)
read d now (err (failed e)) = ("", some (other e))
read d now (ok raw_jwt) = (raw_jwt, check_expiry d now raw_jwt)

abbrev gone : Option OsError → Option String
gone none = none
gone (some not_exist) = none
gone (some (failed e)) = some e

abbrev pub error_text : Option OsError → Option String
error_text none = none
error_text (some e) = some (text e)

-- The hash of a key and `filepath.Join`.
pub record Naming : Type 0 where
  pub hash : String → String
  pub join : String → String → String

module _ (os : Os) (d : Decoder) (now : ℕ) (naming : Naming) (dir : String) where
  unfoldable pub file_name : String → String
  file_name key = naming.hash key <> ".jwt"

  unfoldable pub path_of : String → String
  unfolding file_name
  path_of key = naming.join dir (file_name key)

  unfoldable pub load_jwt : String → os.Fs → String × Option JwtError
  load_jwt key fs = read d now (os.read_file (path_of key) fs)

  abbrev written : String → String → os.Fs × Option OsError → os.Fs × Option String
  written key raw_jwt (fs, some e) = (fs, some (text e))
  written key raw_jwt (fs, none) =
      let (fs', e) = os.write_file (path_of key) raw_jwt fs in (fs', error_text e)

  unfoldable pub store_jwt : String → String → os.Fs → os.Fs × Option String
  store_jwt key raw_jwt fs = written key raw_jwt (os.mkdir_all dir fs)

  unfoldable pub delete_jwt : String → os.Fs → os.Fs × Option String
  delete_jwt key fs = let (fs', e) = os.remove (path_of key) fs in (fs', gone e)

  abbrev pub local_cache : Cache os.Fs
  local_cache = record { load_jwt = load_jwt; store_jwt = store_jwt; delete_jwt = delete_jwt }

-- Different keys have different files.
abbrev pub NamesApart : Os → Naming → String → Type 0
NamesApart os naming dir =
    (k j : String)
    → naming.join dir (naming.hash k <> ".jwt") ≡ naming.join dir (naming.hash j <> ".jwt")
    → k ≡ j

module _ (os : Os) (laws : OsLaws os) (d : Decoder) (now : ℕ) (naming : Naming) (dir : String)
    (apart : NamesApart os naming dir) where
  abbrev path : String → String
  path key = naming.join dir (naming.hash key <> ".jwt")

  made : os.Fs → os.Fs
  made fs = (os.mkdir_all dir fs).0

  load-store :
      (k jwt : String) (fs : os.Fs)
      → (store_jwt os d now naming dir k jwt fs).1 ≡ none
      → load_jwt os d now naming dir k (store_jwt os d now naming dir k jwt fs).0
        ≡ (jwt, check_expiry d now jwt)
  unfolding store_jwt load_jwt path_of made
  load-store k jwt fs e = elim (Option-cases (os.mkdir_all dir fs).1) [
    | inl fine ↦ elim (Option-cases (os.write_file (path k) jwt (made fs)).1) [
      | inl written ↦ ground (arith, fine, written, laws.read-write (path k) jwt (made fs) written)
      | inr (x, bad) ↦ absurd (ground (arith, fine, bad, e))
    ]
    | inr (x, bad) ↦ absurd (ground (arith, bad, e))
  ]

  load-store_other :
      (k j jwt : String) (fs : os.Fs)
      → k ≢ j
      → load_jwt os d now naming dir j (store_jwt os d now naming dir k jwt fs).0
        ≡ load_jwt os d now naming dir j fs
  unfolding store_jwt load_jwt path_of made
  load-store_other k j jwt fs n =
      let kept = laws.read-mkdir dir (path j) fs in
      elim (Option-cases (os.mkdir_all dir fs).1) [
        | inl fine ↦ ground (
          arith,
          fine,
          kept,
          laws.read-write_other (path k) (path j) jwt (made fs) (λ q. n (apart k j q)),
        )
        | inr (x, bad) ↦ ground (arith, bad, kept)
      ]

  load-delete :
      (k : String) (fs : os.Fs)
      → (delete_jwt os d now naming dir k fs).1 ≡ none
      → load_jwt os d now naming dir k (delete_jwt os d now naming dir k fs).0
        ≡ ("", some not_found)
  unfolding delete_jwt load_jwt path_of
  load-delete k fs e = rw (laws.read-remove (path k) fs (λ x q. ground (arith, q, e)))

  -- The cache of files keeps the promises of a cache, as far as package os keeps its own and
  -- different keys have different file names.
  pub local_cache-CacheLaws : CacheLaws d now (local_cache os d now naming dir)
  local_cache-CacheLaws = record {
    load-store = load-store;
    load-store_other = load-store_other;
    load-delete = load-delete;
    load-delete_other = λ k j fs n.
        unfold delete_jwt load_jwt path_of in
        rw (laws.read-remove_other (path k) (path j) fs (λ q. n (apart k j q)));
  }
