-- ===== src/Examples/Udps.antt =====
-- Two addresses that send packets to a session manager.
use cli.Base.{ℕ, ◌≡◌, refl, Option, none, some, List, [], ◌∷◌, ◌++◌, suc}
use cli.Base.Lists.{length}
use cli.Base.Maps.{lookup, insert}
use cli.Tunnel.Errors.{Error}
use cli.Tunnel.Http.{own}
use cli.Tunnel.Udp.{Varint, VarintLaws, UdpDatagram, drop, take}
use cli.Tunnel.Udp.Manager
use cli.Tunnel.Udp.Manager.{
  Manager, Event, packet, enqueue, hand, stopped, reads, returns, cancel, writes, flush, Session,
  step, steps, start, done, handing, running,
}
use cli.Tunnel.Udp.Sessions.{steps-one_session}
use cli.Tunnel.Udp.Order.{on_the_way}
use cli.Tunnel.Udp.Received.{received, sent_to}
use cli.Tunnel.Udp.Dropped.{Ended}
use cli.Tunnel.Udp.Delivery.{steps-delivers}
use cli.Tunnel.Udp.Progress.{steps-progress}
use cli.Tunnel.Udp.Blocked.{steps-blocked}
use cli.Tunnel.Udp.Streams.{read_remote, stream_from_capsules, read_remote-stream_from_capsules}

-- One byte for a number, as for those below 64.
abbrev parse_byte : List ℕ → ℕ × ℕ
parse_byte [] = (0, 0)
parse_byte (b ∷ bs) = (b, 1)

abbrev one_byte : Varint
one_byte = record { append = λ bs n. bs ++ n ∷ []; parse = parse_byte }

one_byte-laws : VarintLaws one_byte
one_byte-laws = record { append-zero = refl; parse-append = λ n rest. refl }

-- A packet of each address is given to its session; the first session answers.
abbrev turns : List Event
turns =
    packet "a" (7 ∷ [])
    ∷ enqueue
    ∷ Manager.take
    ∷ packet "b" (8 ∷ [])
    ∷ hand
    ∷ enqueue
    ∷ Manager.take
    ∷ hand
    ∷ reads 0
    ∷ writes 0 (record { addr = ""; bytes = 0 ∷ 9 ∷ [] })
    ∷ []

-- The state behind the turns.
abbrev or_start : Option Manager → Manager
or_start none = start
or_start (some m) = m

abbrev behind : List Event → Manager
behind es = or_start (steps one_byte 100 es start)

reached : steps one_byte 100 turns start ≡ some (behind turns)
unfolding steps step lookup insert
reached = refl

-- The answer leaves for the address of the session, whatever the datagram said.
answered : (behind (turns ++ flush ∷ [])).wire ≡ ("a", 9 ∷ []) ∷ []
unfolding steps step lookup insert drop
answered = refl

steps-one_session_example : (◌≡◌ {A = ℕ} 0 0) × (lookup "a" (behind turns).sessions ≡ some 0)
unfolding steps step lookup insert
steps-one_session_example =
    steps-one_session one_byte 100 turns (behind turns) 0 0 "a" reached refl refl refl refl

steps-delivers_example :
    (on_the_way (behind turns) ≡ (behind turns).arrived)
    × ((i : ℕ) → received ((behind turns).objects i) ≡ sent_to i (behind turns).log)
    × Ended (behind turns).objects (behind turns).log
steps-delivers_example =
    steps-delivers one_byte 100 turns (behind turns) reached
      (unfold steps step lookup insert in refl)

-- A second packet from "a" waits for the first to be read.
abbrev full : List Event
full =
    packet "a" (7 ∷ [])
    ∷ enqueue
    ∷ Manager.take
    ∷ hand
    ∷ packet "a" (8 ∷ [])
    ∷ enqueue
    ∷ Manager.take
    ∷ []

full_reached : steps one_byte 100 full start ≡ some (behind full)
unfolding steps step lookup insert
full_reached = refl

steps-progress_example :
    (fs : List Event) × (n : Manager) × (steps one_byte 100 fs (behind full) ≡ some n)
    × (length n.log ≡ suc (length (behind full).log))
steps-progress_example =
    steps-progress one_byte 100 full (behind full) full_reached
      (unfold steps step lookup insert in tt)

-- Meanwhile a packet from "b" does not get past the reader.
abbrev meanwhile : List Event
meanwhile = packet "b" (9 ∷ []) ∷ enqueue ∷ []

abbrev sent_first : UdpDatagram
sent_first = record { addr = "a"; bytes = 0 ∷ 7 ∷ [] }

abbrev sent_second : UdpDatagram
sent_second = record { addr = "a"; bytes = 0 ∷ 8 ∷ [] }

steps-blocked_example :
    ((behind (full ++ meanwhile)).dispatcher ≡ handing 0 sent_second)
    × ((behind (full ++ meanwhile)).log ≡ (behind full).log)
    × ((behind (full ++ meanwhile)).sessions ≡ (behind full).sessions)
steps-blocked_example =
    steps-blocked one_byte 100 0 sent_second
      (record { addr = "a"; inbox = sent_first ∷ []; phase = running; got = [] }) sent_first []
      meanwhile (behind full) (behind (full ++ meanwhile))
      (unfold steps step lookup insert take in (refl, refl, refl, refl, refl)) refl
      (unfold steps step lookup insert take in refl)

-- The local side lists what is written to it.
abbrev note : UdpDatagram → List UdpDatagram → List UdpDatagram × Option Error
note d ds = (d ∷ ds, none)

read_remote-stream_from_capsules_example :
    (read_remote one_byte note ((0 ∷ 7 ∷ []) ∷ (2 ∷ 8 ∷ []) ∷ []) (own "end") []).0
    ≡ (stream_from_capsules one_byte note ((0, 0 ∷ 7 ∷ []) ∷ []) (own "end") []).0
read_remote-stream_from_capsules_example =
    read_remote-stream_from_capsules one_byte note 0 ((0 ∷ 7 ∷ []) ∷ (2 ∷ 8 ∷ []) ∷ []) (own "end")
      []
