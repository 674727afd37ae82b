-- ===== src/Examples.antt =====
-- Tests of the model on small inputs, and the theorems at inputs that meet their hypotheses.
mod Codecs
mod Configs
mod Certs
mod Persists
mod Urls
mod Jwts
mod Runs
mod Fallbacks
mod Filters
mod Connects
mod Services
mod Broadcasts
mod Loops
mod Tunnelers
mod Udps
mod Logins
mod Credentials
