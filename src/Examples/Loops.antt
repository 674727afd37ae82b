-- ===== src/Examples/Loops.antt =====
-- The accept loops over results of every kind, and a configuration in a file.
use cli.Base.{◌≡◌, refl, none, some, List, [], ◌∷◌}
use cli.Tunnel.Listening.{Accepted, accepted, cancelled, waited, failed}
use cli.Api.Accept.Announces.{connections}
use cli.Api.FileProvider.{save}
use cli.Examples.Jwts.{os}

abbrev results : List Accepted
results =
    accepted "peer" ∷ waited ∷ failed "reset" ∷ accepted "other" ∷ cancelled ∷ accepted "late" ∷ []

with_nil : connections results ≡ some "peer" ∷ none ∷ some "other" ∷ []
unfolding connections
with_nil = refl

saved : (save os "config.json" "{}" []).1 ≡ none
unfolding save
saved = refl
