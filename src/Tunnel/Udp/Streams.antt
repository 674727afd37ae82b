-- ===== src/Tunnel/Udp/Streams.antt =====
-- The loops that pass datagrams on: over HTTP/3, in datagrams (tunnel/tunnel_http3.go), and over
-- HTTP/1, in capsules (tunnel/tunnel_udp.go). The reads of a loop are a list, with the error of the
-- read behind them.
use cli.Base.{
  ℕ, ◌≡◌, refl, Option, none, some, List, [], ◌∷◌, nat_eq, Bool-cases, inl, inr, if◌then◌else◌,
}
use cli.Tunnel.Errors.{Error}
use cli.Tunnel.Http.{wrapped}
use cli.Tunnel.Udp.{Varint, UdpDatagram, context_id}

-- A datagram with no address.
abbrev pub unaddressed : List ℕ → UdpDatagram
unaddressed bytes = record { addr = ""; bytes = bytes }

-- Behind a call of the writer: its error, if any, ends the loop.
abbrev written : {W : Type 0} → (Error → Error) → W × Option Error → (W → W × Error) → W × Error
written f (w, some e) rest = (w, f e)
written f (w, none) rest = rest w

module _ {W : Type 0} (v : Varint) (write : UdpDatagram → W → W × Option Error) where
  -- `readRemote`
  unfoldable pub read_remote : List (List ℕ) → Error → W → W × Error
  read_remote [] e w = (w, wrapped "http/3: error reading datagram" e)
  read_remote (bytes ∷ rest) e w =
      let d = unaddressed bytes in
      let passed_over = read_remote rest e w in
      let sent =
        written (wrapped "http/3: error writing packet to udp connection") (write d w)
          (read_remote rest e) in
      if nat_eq (context_id v d) 0 then sent else passed_over

  -- `streamFromCapsuleDatagramsToUDPDatagramWriter`: neither the type of a capsule nor the context
  -- of its datagram is looked at.
  unfoldable pub stream_from_capsules : List (ℕ × List ℕ) → Error → W → W × Error
  stream_from_capsules [] e w = (w, e)
  stream_from_capsules ((kind, bytes) ∷ rest) e w =
      written (λ x. x) (write (unaddressed bytes) w) (stream_from_capsules rest e)

  -- The datagrams of context 0, as the capsules of HTTP/1 that hold them.
  abbrev pub context_zero : ℕ → List (List ℕ) → List (ℕ × List ℕ)
  context_zero kind [] = []
  context_zero kind (bytes ∷ rest) =
      let more = context_zero kind rest in
      if nat_eq (context_id v (unaddressed bytes)) 0 then (kind, bytes) ∷ more else more

  written-state :
      (f : Error → Error) (o : W × Option Error) (g h : W → W × Error)
      → ((w : W) → (g w).0 ≡ (h w).0)
      → (written f o g).0 ≡ (written (λ x. x) o h).0
  written-state f (w, some e) g h k = refl
  written-state f (w, none) g h k = k w

  -- The loop over HTTP/3 writes to the local side what the loop over HTTP/1 writes, in the same state, when it
  -- is given only the datagrams of context 0, in capsules of any type.
  pub read_remote-stream_from_capsules :
      (kind : ℕ) (received : List (List ℕ)) (e : Error) (w : W)
      → (read_remote received e w).0 ≡ (stream_from_capsules (context_zero kind received) e w).0
  unfolding read_remote stream_from_capsules
  read_remote-stream_from_capsules kind [] e w = refl
  read_remote-stream_from_capsules kind (bytes ∷ rest) e w =
      elim (Bool-cases (nat_eq (context_id v (unaddressed bytes)) 0)) [
        | inl z ↦ rw z (
            written-state _ (write (unaddressed bytes) w) (read_remote rest e)
              (stream_from_capsules (context_zero kind rest) e)
              (read_remote-stream_from_capsules kind rest e))
        | inr n ↦ rw n (read_remote-stream_from_capsules kind rest e w)
      ]

-- `SendDatagram`: `quic.DatagramTooLargeError`, or another error.
pub data SendError : Type 0 where
  too_large : SendError
  failed : Error → SendError

abbrev sent : {W : Type 0} → W × Option SendError → (W → W × Error) → W × Error
sent (w, none) rest = rest w
sent (w, some too_large) rest = rest w
sent (w, some (failed e)) rest = (w, wrapped "http/3: error sending datagram" e)

-- `readLocal`
unfoldable pub read_local :
    {W : Type 0} → (List ℕ → W → W × Option SendError) → List UdpDatagram → Error → W → W × Error
read_local send [] e w = (w, wrapped "http/3: error reading packet from local udp connection" e)
read_local send (d ∷ rest) e w = sent (send d.bytes w) (read_local send rest e)

-- `streamFromUDPDatagramReaderToCapsuleDatagrams`: a capsule of type 0, and a flush.
unfoldable pub stream_to_capsules :
    {W : Type 0}
    → (ℕ → List ℕ → W → W × Option Error)
    → (W → W × Option Error)
    → List UdpDatagram
    → Error
    → W
    → W × Error
stream_to_capsules write_capsule flush [] e w = (w, e)
stream_to_capsules write_capsule flush (d ∷ rest) e w =
    written (λ x. x) (write_capsule 0 d.bytes w)
      λ u. written (λ x. x) (flush u) (stream_to_capsules write_capsule flush rest e)

-- What `http3.ParseCapsule` and the copy of a capsule's payload return.
pub data Capsule : Type 0 where
  skipped : Capsule
  eof : Capsule
  unparsed unread : Error → Capsule

-- `skipCapsules`: the end of the stream is no error. `none` if the list ends before the loop.
unfoldable pub skip_capsules : List Capsule → Option (Option Error)
skip_capsules [] = none
skip_capsules (skipped ∷ rest) = skip_capsules rest
skip_capsules (eof ∷ rest) = some none
skip_capsules (unparsed e ∷ rest) = some (some (wrapped "error parsing http3 capsule" e))
skip_capsules (unread e ∷ rest) = some (some (wrapped "error reading http3 capsule payload" e))
