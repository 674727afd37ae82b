-- ===== src/Examples/Certs.antt =====
-- Key usages.
use cli.Base.{◌≢◌, refl, []}
use cli.Proto.Bits
use cli.Proto.Certs.{key_usage, has_bit}
use cli.Proto.Certs.Usage.{key_usage-loses_key_encipherment}

key_usage-loses_key_encipherment_example :
    (key_usage 5 []).key_encipherment ≢ has_bit 5 Bits.key_encipherment
key_usage-loses_key_encipherment_example = key_usage-loses_key_encipherment 5 [] refl refl
