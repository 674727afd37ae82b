-- ===== src/Api/Service/Written.antt =====
-- `listLocked` of api/config_server.go and the tag index: the certificate information that it writes.
use cli.Base.{String, ◌≡◌, refl, Option, none, some, List, [], ◌∷◌, arith}
use cli.Base.Maps.{Map, lookup, map_values}
use cli.Proto.Records.{Record}
use cli.Api.Config.{Config}
use cli.Api.Config.Index.{IsIndexed}
use cli.Api.Service.{Service, Parts, rewritten}

abbrev pub changed {ℓ} : {V : Type ℓ} → (V → V) → Option V → Option V
changed f none = none
changed f (some v) = some (f v)

module _ {ℓ} {V : Type ℓ} where
  pub lookup-map_values :
      (f : V → V) (k : String) (m : Map V) → lookup k (map_values f m) ≡ changed f (lookup k m)
  unfolding lookup map_values
  lookup-map_values f k [] = refl
  lookup-map_values f k ((j, v) ∷ m) = ground (arith, lookup-map_values f k m)

module _ (records : List Record) where
  abbrev f : Record → Record
  f = rewritten records

module _ {L S : Type 0} (x : Parts L S) where
  -- What a listing leaves: an indexed configuration, and the rest but for the cache.
  abbrev Listed : Service L S → Service L S → Type 0
  Listed s t = IsIndexed t.config × (t.listeners ≡ s.listeners) × (t.storage ≡ s.storage)
