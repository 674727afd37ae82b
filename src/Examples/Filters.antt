-- ===== src/Examples/Filters.antt =====
-- A filter on the issuer's common name, and none on the subject.
use cli.Base.{◌==◌, false, if◌then◌else◌, String, ◌≡◌, refl, Bool, true}
use cli.Base.Results.{ok}
use cli.Certstore.{
  Names, no_name, attribute_lookup, parse_filter_condition, passes, filter_callback,
}
use cli.Net.{cut}
use cli.Base.Lists.{contains}

abbrev lower : String → String
lower s = if s == "CN" then "cn" else s

abbrev cert : Names
cert = record { issuer = record no_name { common_name = "ca" }; subject = no_name }

abbrev callback : Names → Bool
callback c = if passes ("cn", "ca") c.issuer then passes ("", "") c.subject else false

made : filter_callback lower "CN=ca" "" ≡ ok callback
unfolding filter_callback parse_filter_condition cut attribute_lookup
made = refl

accepted : callback cert ≡ true
unfolding passes attribute_lookup contains
accepted = refl
