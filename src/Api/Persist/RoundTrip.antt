-- ===== src/Api/Persist/RoundTrip.antt =====
-- `save` and `loadConfig` of api/config.go, one after the other.
use cli.Base.{
  inr, inl, eq-false, ℕ, String, ◌≡◌, refl, sym, ◌∙◌, ap, ◌≢◌, true, Option, none, some, List, [],
  ◌∷◌, arith, ◌==◌, eq_iff, eq_refl, if◌then◌else◌, Option-cases,
}
use cli.Base.Maps.{Map, lookup, values, Unique, lookup-nil}
use cli.Base.Results.{Result-cases, ok}
use cli.Proto.Records.{Record}
use cli.Api.Config.{Config, new_config, or_new, stored, upsert, list_all}
use cli.Api.Config.Tags.{entry}
use cli.Api.Config.Index.{
  tagged, IsIndexed, IsIndexed-IsIndexedBut, new_config-IsIndexed, upsert-IsIndexed, upsert-by_id,
}
use cli.Api.Persist.{
  ProviderLaws, Codec, CodecLaws, Provider, Layout, taken, upsert_all, load_config, save,
}

-- Any list of records keeps the invariant.
pub upsert_all-IsIndexed :
    (uuid : ℕ → String) (n : ℕ) (cfg : Config) (records : List Record)
    → IsIndexed cfg
    → IsIndexed (upsert_all uuid n cfg records).0
unfolding upsert_all
upsert_all-IsIndexed uuid n cfg [] h = h
upsert_all-IsIndexed uuid n cfg (r ∷ records) h =
    upsert_all-IsIndexed uuid (taken n r.id) (upsert (uuid n) cfg r) records
      (upsert-IsIndexed (uuid n) cfg r (IsIndexed-IsIndexedBut (or_new (uuid n) r.id) h))

-- Each record is filed under its own id, as in an indexed configuration.
abbrev Filed : Map Record → Type 0
Filed [] = Unit
Filed ((k, r) ∷ m) = (r.id ≡ some k) × Filed m

IsIndexed-Filed :
    (m : Map Record)
    → Unique m
    → ((k : String) (r : Record) → lookup k m ≡ some r → r.id ≡ some k)
    → Filed m
IsIndexed-Filed [] u h = tt
IsIndexed-Filed ((k, r) ∷ m) u h = (
  h k r (unfold lookup in rw eq_refl),
  IsIndexed-Filed m u.1 (λ j s e. h j s (unfold lookup in ground (arith, eq_iff k j, e, u.0))),
)

abbrev or_else : Option Record → Option Record → Option Record
or_else none o = o
or_else (some r) o = some r

-- A new record, with an id that the configuration does not hold, is stored as it is.
stored-new :
    (new_id : String) (cfg : Config) (r : Record) (k : String)
    → r.id ≡ some k
    → lookup k cfg.by_id ≡ none
    → stored new_id cfg r ≡ r
unfolding stored
stored-new new_id cfg r k e gone = ground (arith, e, gone)

abbrev Apart : Map Record → Config → Type 0
Apart m cfg = (k : String) → lookup k m ≢ none → lookup k cfg.by_id ≡ none

upsert-filed :
    (new_id : String) (cfg : Config) (r : Record) (k j : String)
    → IsIndexed cfg
    → r.id ≡ some k
    → lookup k cfg.by_id ≡ none
    → lookup j (upsert new_id cfg r).by_id ≡ (if k == j then some r else lookup j cfg.by_id)
upsert-filed new_id cfg r k j h e gone = ground (
  arith,
  e,
  upsert-by_id new_id cfg r (IsIndexed-IsIndexedBut (or_new new_id r.id) h) j,
  stored-new new_id cfg r k e gone,
)

upsert_all-values :
    (uuid : ℕ → String) (n : ℕ) (m : Map Record) (cfg : Config) (j : String)
    → Unique m
    → Filed m
    → IsIndexed cfg
    → Apart m cfg
    → lookup j (upsert_all uuid n cfg (values m)).0.by_id
      ≡ or_else (lookup j m) (lookup j cfg.by_id)
unfolding upsert_all values lookup
upsert_all-values uuid n [] cfg j u f h apart = refl
upsert_all-values uuid n ((k, r) ∷ m) cfg j u f h apart =
    let gone : lookup k cfg.by_id ≡ none = apart k (λ e. ground (arith, eq_refl k, e)) in
    let next = upsert (uuid n) cfg r in
    let h' = upsert-IsIndexed (uuid n) cfg r (IsIndexed-IsIndexedBut (or_new (uuid n) r.id) h) in
    upsert_all-values uuid (taken n r.id) m next j u.1 f.1 h' (λ i held.
      ground (arith, eq_iff k i, upsert-filed (uuid n) cfg r k i h f.0 gone, held, u.0, apart i))
    ∙ ground (arith, eq_iff k j, u.0, upsert-filed (uuid n) cfg r k j h f.0 gone)

-- The same records under the same ids, and the same tag index.
pub record SameRecords (a b : Config) : Type 0 where
  pub same_ids : (id : String) → lookup id a.by_id ≡ lookup id b.by_id
  pub same_tags : (t id : String) → entry t id a.by_tag ≡ entry t id b.by_tag

SameRecords-of_ids :
    (a b : Config)
    → IsIndexed a
    → IsIndexed b
    → ((id : String) → lookup id a.by_id ≡ lookup id b.by_id)
    → SameRecords a b
SameRecords-of_ids a b ha hb e = record {
  same_ids = e;
  same_tags = λ t id. ha.index t id ∙ ap (tagged t) (e id) ∙ sym (hb.index t id);
}

reload : (ℕ → String) → ℕ → Config → Config
reload uuid n cfg = (upsert_all uuid n new_config (list_all cfg)).0

reload-SameRecords :
    (uuid : ℕ → String) (n : ℕ) (cfg : Config)
    → IsIndexed cfg
    → IsIndexed (reload uuid n cfg) × SameRecords (reload uuid n cfg) cfg
unfolding reload list_all
reload-SameRecords uuid n cfg h =
    let h' = upsert_all-IsIndexed uuid n new_config (list_all cfg) new_config-IsIndexed in
    let filed = IsIndexed-Filed cfg.by_id h.unique_ids h.ids in
    (
      h',
      SameRecords-of_ids (reload uuid n cfg) cfg h' h λ id.
          upsert_all-values uuid n cfg.by_id new_config id h.unique_ids filed new_config-IsIndexed
            (λ k _. lookup-nil {V = Record} k)
          ∙ ground (arith, lookup-nil {V = Record} id),
    )

module _ (c : Codec) (laws : CodecLaws c) {S : Type 0} (provider : Provider S) where
  load-saved :
      (uuid : ℕ → String) (n : ℕ) (storage : S) (records : List Record) (bytes : String)
      → c.marshal Layout.compact (c.new_any records) ≡ ok bytes
      → provider.load storage ≡ ok bytes
      → load_config c provider storage uuid n ≡ ok (upsert_all uuid n new_config records)
  unfolding load_config
  load-saved uuid n storage records bytes written loaded = rw loaded (
      rw (eq-false bytes "" (laws.not_empty Layout.compact (c.new_any records) bytes written)) (
        rw (laws.reads_back Layout.compact true (c.new_any records) bytes written)
          (rw (laws.unpacks records))))

  save-kept :
      ProviderLaws provider
      → (cfg : Config) (storage : S) (bytes : String)
      → c.marshal Layout.compact (c.new_any (list_all cfg)) ≡ ok bytes
      → (save c provider cfg storage).1 ≡ none
      → provider.load (save c provider cfg storage).0 ≡ ok bytes
  unfolding save
  save-kept keeps cfg storage bytes written done =
      elim (Option-cases (provider.save bytes storage).1) [
        | inl saved ↦ rw written (ground (arith, saved, keeps bytes storage saved))
        | inr (e, failed) ↦ absurd (ground (arith, written, failed, done))
      ]

  -- What a save that reports no error leaves in the storage loads again, without an error, as an
  -- indexed configuration with the same records under the same ids and the same tags.
  pub save-load :
      ProviderLaws provider
      → (uuid : ℕ → String) (n : ℕ) (cfg : Config) (storage : S) → IsIndexed cfg
      → (save c provider cfg storage).1 ≡ none
      → (loaded : Config × ℕ) × (load_config c provider (save c provider cfg storage).0 uuid n
          ≡ ok loaded)
        × IsIndexed loaded.0
        × SameRecords loaded.0 cfg
  save-load keeps uuid n cfg storage h done =
      elim (Result-cases (c.marshal Layout.compact (c.new_any (list_all cfg)))) [
        | inl (bytes, written) ↦
            let (indexed, same) = reload-SameRecords uuid n cfg h in
            unfold save reload in
            (
              upsert_all uuid n new_config (list_all cfg),
              load-saved uuid n (save c provider cfg storage).0 (list_all cfg) bytes written
                  (save-kept keeps cfg storage bytes written done),
              indexed,
              same,
            )
        | inr (e, failed) ↦ absurd (unfold save in ground (arith, failed, done))
      ]
