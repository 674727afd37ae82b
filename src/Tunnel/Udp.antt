-- ===== src/Tunnel/Udp.antt =====
-- tunnel/tunnel_udp.go: datagrams, and the session manager, which gives the packets of one UDP socket
-- to a session for each address.
--
-- The goroutines of the manager take turns: `step` is what one of them does next, and `none` that it
-- waits. The variable-length integers of quicvarint are a parameter.
pub mod Manager
pub mod Table
pub mod Turns
pub mod Handlers
pub mod Sessions
pub mod Order
pub mod Received
pub mod Dropped
pub mod Delivery
pub mod Progress
pub mod Blocked
pub mod Streams
use cli.Base.{ℕ, zero, suc, ◌≡◌, refl, sym, ap, ◌∙◌, ◌≤◌, String, List, [], ◌∷◌, ◌++◌, arith}
use cli.Base.Lists.{length}

-- `quicvarint.Append`, and what `quicvarint.Parse` returns beside its error.
pub record Varint : Type 0 where
  pub append : List ℕ → ℕ → List ℕ
  pub parse : List ℕ → ℕ × ℕ

-- What is promised: zero is one byte, and an encoding is read back, with its length.
pub record VarintLaws (v : Varint) : Type 0 where
  pub append-zero : v.append [] 0 ≡ 0 ∷ []
  pub parse-append :
      (n : ℕ) (rest : List ℕ) → v.parse (v.append [] n ++ rest) ≡ (n, length (v.append [] n))

pub record UdpDatagram : Type 0 where
  pub addr : String
  pub bytes : List ℕ

unfoldable pub drop {ℓ} : {A : Type ℓ} → ℕ → List A → List A
drop zero xs = xs
drop (suc n) [] = []
drop (suc n) (x ∷ xs) = drop n xs

unfoldable pub take {ℓ} : {A : Type ℓ} → ℕ → List A → List A
take zero xs = []
take (suc n) [] = []
take (suc n) (x ∷ xs) = x ∷ take n xs

abbrev zeros : ℕ → List ℕ
zeros zero = []
zeros (suc n) = 0 ∷ zeros n

module _ (v : Varint) where
  abbrev pub context_id_zero : List ℕ
  context_id_zero = v.append [] 0

  abbrev pub context_id : UdpDatagram → ℕ
  context_id d = (v.parse d.bytes).0

  abbrev pub payload : UdpDatagram → List ℕ
  payload d = let (_, n) = v.parse d.bytes in drop n d.bytes

  -- What `read` makes of a packet: the first bytes of its buffer are never written to, and the rest
  -- has room for `max` bytes.
  abbrev pub read_packet : ℕ → String → List ℕ → UdpDatagram
  read_packet max addr packet = record {
    addr = addr;
    bytes = zeros (length context_id_zero) ++ take max packet;
  }

-- `(2 << 15) - 1`
abbrev pub max_udp_packet_size : ℕ
max_udp_packet_size = 65535

take-all : {A : Type 0} (n : ℕ) (xs : List A) → length xs ≤ n → take n xs ≡ xs
unfolding take
take-all zero [] h = refl
take-all zero (x ∷ xs) h = absurd (omega arith)
take-all (suc n) [] h = refl
take-all (suc n) (x ∷ xs) h = ap (λ l. x ∷ l) (take-all n xs (omega arith))

drop-prefix : {A : Type 0} (xs ys : List A) → drop (length xs) (xs ++ ys) ≡ ys
unfolding drop
drop-prefix [] ys = refl
drop-prefix (x ∷ xs) ys = drop-prefix xs ys

read_packet-bytes :
    (v : Varint) (max : ℕ) (addr : String) (packet : List ℕ)
    → VarintLaws v
    → length packet ≤ max
    → (read_packet v max addr packet).bytes ≡ context_id_zero v ++ packet
read_packet-bytes v max addr packet laws h =
    ap (λ z. zeros (length z) ++ take max packet) laws.append-zero
    ∙ ap (λ p. 0 ∷ p) (take-all max packet h)
    ∙ ap (λ z. z ++ packet) (sym laws.append-zero)

-- Where the integers are read back as they were written, and zero is one byte, a packet that fits
-- the buffer of `max` bytes is read as a datagram of its address, of context 0, with the packet as
-- its payload.
pub read_packet-payload :
    (v : Varint) (max : ℕ) (addr : String) (packet : List ℕ)
    → VarintLaws v
    → length packet ≤ max
    → ((read_packet v max addr packet).addr ≡ addr)
      × (context_id v (read_packet v max addr packet) ≡ 0)
      × (payload v (read_packet v max addr packet) ≡ packet)
read_packet-payload v max addr packet laws h =
    let same = read_packet-bytes v max addr packet laws h in
    let read = ap v.parse same ∙ laws.parse-append 0 packet in
    let behind : payload v (read_packet v max addr packet)
        ≡ drop (length (context_id_zero v)) (context_id_zero v ++ packet) =
      λ i. drop ((read i).1) (same i) in
    (refl, ap (λ p. p.0) read, behind ∙ drop-prefix (context_id_zero v) packet)
