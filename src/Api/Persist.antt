-- ===== src/Api/Persist.antt =====
-- How the configuration is stored and exchanged: `loadConfig` and `save` of api/config.go,
-- `importRecords` and `exportRecords` of api/import_export.go, and the providers of api/server.go.
--
-- The encodings of protojson and anypb are a `Codec`. `uuid.NewString()` is a supply `uuid` with the
-- number of ids taken so far.
pub mod RoundTrip
pub mod Transfer
use cli.Base.{
  ℕ, suc, ◌≡◌, ◌≢◌, String, Bool, true, false, Option, none, some, List, [], ◌∷◌, map, ◌==◌,
  if◌then◌else◌,
}
use cli.Net.{◌<>◌}
use cli.Base.Results.{Result, ok, err, map_err, ◌>>=◌}
use cli.Proto.Records.{Record, ImportRequest}
use cli.Api.Config.{Config, new_config, upsert, list_all}

pub data Layout : Type 0 where
  compact pretty : Layout

-- An error is its text.
pub record Codec : Type 1 where
  pub Any : Type 0
  -- The flag is `DiscardUnknown`.
  pub unmarshal : Bool → String → Result String Any
  pub unmarshal_to : Any → Result String (List Record)
  pub new_any : List Record → Any
  pub marshal : Layout → Any → Result String String

-- `ConfigProvider`, over the state `S` of its storage.
pub record Provider (S : Type 0) : Type 0 where
  pub load : S → Result String String
  pub save : String → S → S × Option String

-- `MemCP`
abbrev pub mem_provider : Provider String
mem_provider = record { load = λ stored. ok stored; save = λ bytes stored. (bytes, none) }

pub data PersistError : Type 0 where
  load_failed unmarshal_failed unmarshal_to_failed marshal_failed save_failed :
      String → PersistError

abbrev pub persist_text : PersistError → String
persist_text (load_failed e) = "load: " <> e
persist_text (unmarshal_failed e) = "unmarshal: " <> e
persist_text (unmarshal_to_failed e) = "unmarshal to: " <> e
persist_text (marshal_failed e) = "marshal: " <> e
persist_text (save_failed e) = "save: " <> e

abbrev pub taken : ℕ → Option String → ℕ
taken n none = suc n
taken n (some id) = n

-- The loops of `loadConfig` and `importRecords` over the decoded records.
unfoldable pub upsert_all : (ℕ → String) → ℕ → Config → List Record → Config × ℕ
upsert_all uuid n cfg [] = (cfg, n)
upsert_all uuid n cfg (r ∷ records) = upsert_all uuid (taken n r.id) (upsert (uuid n) cfg r) records

abbrev pub override : Option String → Record → Record
override none r = r
override (some t) r = record r { tags = t ∷ [] }

-- The loop of `exportRecords` over the cloned records.
abbrev pub strip : Bool → Record → Record
strip true r = record r { id = none; tags = [] }
strip false r = record r { id = none }

module _ (c : Codec) where
  unfoldable pub load_config :
      {S : Type 0} → Provider S → S → (ℕ → String) → ℕ → Result PersistError (Config × ℕ)
  load_config provider storage uuid n = do
    bytes ← map_err load_failed (provider.load storage)
    if bytes == "" then ok (new_config, n) else do
      any ← map_err unmarshal_failed (c.unmarshal true bytes)
      records ← map_err unmarshal_failed (c.unmarshal_to any)
      ok (upsert_all uuid n new_config records)

  abbrev saved : {S : Type 0} → S × Option String → S × Option PersistError
  saved (storage, none) = (storage, none)
  saved (storage, some e) = (storage, some (save_failed e))

  abbrev save_bytes : {S : Type 0} → Provider S → S → Result String String → S × Option PersistError
  save_bytes provider storage (err e) = (storage, some (marshal_failed e))
  save_bytes provider storage (ok bytes) = saved (provider.save bytes storage)

  unfoldable pub save : {S : Type 0} → Provider S → Config → S → S × Option PersistError
  save provider cfg storage =
      save_bytes provider storage (c.marshal compact (c.new_any (list_all cfg)))

  unfoldable pub import_records :
      (ℕ → String) → ℕ → Config → ImportRequest → Result PersistError (Config × ℕ)
  import_records uuid n cfg req = do
    any ← map_err unmarshal_failed (c.unmarshal false req.contents)
    records ← map_err unmarshal_to_failed (c.unmarshal_to any)
    ok (upsert_all uuid n cfg (map (override req.override_tag) records))

  unfoldable pub export_records : List Record → Bool → Layout → Result String String
  export_records recs remove_tags layout =
      c.marshal layout (c.new_any (map (strip remove_tags) recs))

-- What the two libraries promise: what is written is not empty, and reads back.
pub record CodecLaws (c : Codec) : Type 0 where
  pub reads_back :
      (layout : Layout) (discard : Bool) (a : c.Any) (bytes : String)
      → c.marshal layout a ≡ ok bytes
      → c.unmarshal discard bytes ≡ ok a
  pub not_empty :
      (layout : Layout) (a : c.Any) (bytes : String) → c.marshal layout a ≡ ok bytes → bytes ≢ ""
  pub unpacks : (records : List Record) → c.unmarshal_to (c.new_any records) ≡ ok records

-- What a successful save leaves in the storage is what a load returns.
abbrev pub ProviderLaws : {S : Type 0} → Provider S → Type 0
ProviderLaws {S} provider =
    (bytes : String) (storage : S)
    → (provider.save bytes storage).1 ≡ none
    → provider.load (provider.save bytes storage).0 ≡ ok bytes
