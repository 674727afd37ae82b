-- ===== src/Api/Service/Deletes.antt =====
-- The handler `Delete`: when it succeeds, and what it leaves.
use cli.Base.{
  ℕ, String, ◌≡◌, refl, sym, ◌∙◌, ap, ◌≢◌, ◌↔◌, true, false, Option, none, some, List, [], ◌∷◌,
  ◌==◌, if◌then◌else◌, arith, eq_iff, eq_refl, Bool-cases, Option-cases, inl, inr, subst,
}
use cli.Base.Maps.{lookup}
use cli.Base.Lists.{contains, Distinct}
use cli.Base.Results.{ok}
use cli.Proto.Records.{Record}
use cli.Api.Errors.{ConfigError, not_found}
use cli.Api.Config.{Config, delete}
use cli.Api.Config.Index.{IsIndexed}
use cli.Api.Config.Delete.{delete-IsIndexed, delete-total}
use cli.Api.Persist.{PersistError, CodecLaws, ProviderLaws, load_config, save}
use cli.Api.Persist.RoundTrip.{save-load}
use cli.Api.Connect.{disconnect_loop}
use cli.Api.Service.{
  Service, Parts, and_then, after_deletes, stored_as, delete_loop, save_config, delete_ids,
}

-- The records of the ids are stored, with distinct tags.
abbrev pub Deletable : List String → Config → Type 0
Deletable ids cfg =
    (id : String)
    → contains id ids ≡ true
    → (r : Record) × (lookup id cfg.by_id ≡ some r) × Distinct r.tags

module _ {L S : Type 0} (x : Parts L S) where
  abbrev loop : List String → Config → Config × Option ConfigError
  loop = delete_loop x

  loop-cons :
      (id : String) (ids : List String) (cfg : Config)
      → (delete cfg id).1 ≡ none
      → loop (id ∷ ids) cfg ≡ loop ids (delete cfg id).0
  unfolding delete_loop
  loop-cons id ids cfg e = ap (λ o. and_then x (loop ids) ((delete cfg id).0, o)) e

  loop-failed :
      (id : String) (ids : List String) (cfg : Config) (e : ConfigError)
      → (delete cfg id).1 ≡ some e
      → (loop (id ∷ ids) cfg).1 ≡ some e
  unfolding delete_loop
  loop-failed id ids cfg e f = ap (λ o. (and_then x (loop ids) ((delete cfg id).0, o)).1) f

  -- What the loop leaves when it meets no error.
  loop-IsIndexed :
      (ids : List String) (cfg : Config)
      → IsIndexed cfg
      → (loop ids cfg).1 ≡ none
      → IsIndexed (loop ids cfg).0
        × ((j : String)
            → lookup j (loop ids cfg).0.by_id
              ≡ (if contains j ids then none else lookup j cfg.by_id))
  loop-IsIndexed [] cfg h e = unfold delete_loop contains in (h, λ j. refl)
  loop-IsIndexed (id ∷ ids) cfg h e = elim (Option-cases (delete cfg id).1) [
    | inr (f, failed) ↦ absurd (cc (loop-failed id ids cfg f failed, e))
    | inl fine ↦
        let at = loop-cons id ids cfg fine in
        let (indexed, removed) = delete-IsIndexed cfg id h fine in
        let (still, rest) =
          loop-IsIndexed ids (delete cfg id).0 indexed (ap (λ p. p.1) (sym at) ∙ e) in
        (
          subst (λ (p : Config × Option ConfigError). IsIndexed p.0) (sym at) still,
          λ j.
              ap (λ (p : Config × Option ConfigError). lookup j p.0.by_id) at
              ∙ rest j
              ∙ (unfold contains in ground (arith, removed j)),
        )
  ]

  delete-gone :
      (cfg : Config) (id : String) → lookup id cfg.by_id ≡ none → (delete cfg id).1 ≡ some not_found
  unfolding delete
  delete-gone cfg id e = rw e refl

  Deletable-rest :
      (id : String) (ids : List String) (cfg : Config)
      → IsIndexed cfg
      → Deletable (id ∷ ids) cfg
      → contains id ids ≡ false
      → (delete cfg id).1 ≡ none
      → Deletable ids (delete cfg id).0
  unfolding contains
  Deletable-rest id ids cfg h d apart fine j there =
      let (r, held, distinct) = d j (ground (arith, there)) in
      let (indexed, removed) = delete-IsIndexed cfg id h fine in
      (r, ground (arith, removed j, eq_iff id j, apart, there, held), distinct)

  loop-total :
      (ids : List String) (cfg : Config)
      → IsIndexed cfg
      → Deletable ids cfg
      → Distinct ids
      → (loop ids cfg).1 ≡ none
  loop-total [] cfg h d a = unfold delete_loop in refl
  loop-total (id ∷ ids) cfg h d (apart, a) =
      let (r, held, distinct) = d id (unfold contains in ground (arith, eq_refl id)) in
      let fine = delete-total cfg id h r held distinct in
      ap (λ (p : Config × Option ConfigError). p.1) (loop-cons id ids cfg fine)
      ∙ loop-total ids (delete cfg id).0 (delete-IsIndexed cfg id h fine).0
          (Deletable-rest id ids cfg h d apart fine) a

  -- An id that is not stored is not deleted.
  loop-gone :
      (ids : List String) (cfg : Config) (id : String)
      → IsIndexed cfg
      → (loop ids cfg).1 ≡ none
      → contains id ids ≡ true
      → lookup id cfg.by_id ≢ none
  loop-gone [] cfg id h e there gone = unfold contains in absurd (cc (there))
  loop-gone (k ∷ ids) cfg id h e there gone = elim (Option-cases (delete cfg k).1) [
    | inr (f, failed) ↦ absurd (cc (loop-failed k ids cfg f failed, e))
    | inl fine ↦
        let at = loop-cons k ids cfg fine in
        let (indexed, removed) = delete-IsIndexed cfg k h fine in
        elim (Bool-cases (k == id)) [
          | inl same ↦
              let k_gone : lookup k cfg.by_id ≡ none =
                ap (λ i. lookup i cfg.by_id) ((eq_iff k id).0 same) ∙ gone in
              cc (delete-gone cfg k k_gone, fine)
          | inr other ↦
              loop-gone ids (delete cfg k).0 id indexed (ap (λ p. p.1) (sym at) ∙ e)
                (unfold contains in ground (arith, there, other))
                (ground (arith, removed id, gone, other))
        ]
  ]

  loop-Distinct :
      (ids : List String) (cfg : Config) → IsIndexed cfg → (loop ids cfg).1 ≡ none → Distinct ids
  loop-Distinct [] cfg h e = tt
  loop-Distinct (id ∷ ids) cfg h e = elim (Option-cases (delete cfg id).1) [
    | inr (f, failed) ↦ absurd (cc (loop-failed id ids cfg f failed, e))
    | inl fine ↦
        let rest_fine : (loop ids (delete cfg id).0).1 ≡ none =
          ap (λ p. p.1) (sym (loop-cons id ids cfg fine)) ∙ e in
        let (indexed, removed) = delete-IsIndexed cfg id h fine in
        (
          elim (Bool-cases (contains id ids)) [
            | inr apart ↦ apart
            | inl again ↦ absurd (
                loop-gone ids (delete cfg id).0 id indexed rest_fine again
                  (ground (arith, removed id, eq_refl id)))
          ],
          loop-Distinct ids (delete cfg id).0 indexed rest_fine,
        )
  ]

  -- On an indexed configuration in which the ids are stored with distinct tags, the deletions of
  -- `Delete` meet no error exactly when no id is selected twice.
  pub delete_loop-ok_iff :
      (ids : List String) (cfg : Config)
      → IsIndexed cfg
      → Deletable ids cfg
      → ((delete_loop x ids cfg).1 ≡ none) ↔ Distinct ids
  delete_loop-ok_iff ids cfg h d = (loop-Distinct ids cfg h, loop-total ids cfg h d)

  -- Removal and save, after the listeners were stopped.
  stored_as-storage :
      (s : Service L S) (r : S × Option PersistError)
      → (stored_as x s r).1 ≡ none
      → ((stored_as x s r).0 ≡ record s { storage = r.0 }) × (r.1 ≡ none)
  stored_as-storage s (storage, none) e = (refl, refl)
  stored_as-storage s (storage, some f) e = absurd (ground (arith, e))

  after_deletes-storage :
      (s : Service L S) (r : Config × Option ConfigError)
      → (after_deletes x s r).1 ≡ none
      → (r.1 ≡ none)
        × ((after_deletes x s r).0.config ≡ r.0)
        × ((after_deletes x s r).0.storage ≡ (save x.codec x.provider r.0 s.storage).0)
        × ((save x.codec x.provider r.0 s.storage).1 ≡ none)
  unfolding save_config
  after_deletes-storage s (cfg, some f) e = absurd (ground (arith, e))
  after_deletes-storage s (cfg, none) e =
      let (same, saved) =
        stored_as-storage (record s { config = cfg }) (save x.codec x.provider cfg s.storage) e in
      (
        refl,
        ap (λ (t : Service L S). t.config) same,
        ap (λ (t : Service L S). t.storage) same,
        saved,
      )

  -- With an encoding that reads back what it writes and a provider that loads what it saved: when the
  -- selected records of an indexed configuration are deleted without an error, the storage loads as
  -- an indexed configuration with exactly the records of the other ids.
  pub delete_ids-persists :
      CodecLaws x.codec
      → ProviderLaws x.provider
      → (ids : List String) (s : Service L S) → IsIndexed s.config
      → (delete_ids x ids s).1 ≡ none
      → (loaded : Config × ℕ) × (load_config x.codec x.provider
            (delete_ids x ids s).0.storage
            x.uuid
            s.ids
          ≡ ok loaded)
        × IsIndexed loaded.0
        × ((j : String)
            → lookup j loaded.0.by_id ≡ (if contains j ids then none else lookup j s.config.by_id))
  unfolding delete_ids
  delete_ids-persists laws keeps ids s h e =
      let stopped = record s { listeners = (disconnect_loop ids [] s.listeners).0 } in
      let r = loop ids s.config in
      let (fine, same, kept, saved) = after_deletes-storage stopped r e in
      let (indexed, removed) = loop-IsIndexed ids s.config h fine in
      let (loaded, loads, is, records) =
        save-load x.codec laws x.provider keeps x.uuid s.ids r.0 s.storage indexed saved in
      (
        loaded,
        ap (λ (st : S). load_config x.codec x.provider st x.uuid s.ids) kept ∙ loads,
        is,
        λ j. records.same_ids j ∙ removed j,
      )
