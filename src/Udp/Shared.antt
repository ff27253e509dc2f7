-- ===== src/Udp/Shared.antt =====
-- internal/core/runner.go: the socket that STUN and QUIC share, `sharedUDPConn.ReadFrom`.
use mathlib.Core.List.{Mem, mem-cons_of_mem, mem-cons_self}
use natcat.Base.{
  List, Option, [], arith, if◌then◌else◌, inl, inr, length, length-append, ltb, none, some, take, ℕ,
  ◌++◌, ◌∷◌, ◌≡◌, ◌≤◌,
}
use natcat.Result.{Result-cases, err, ok}
use natcat.Stun.{Bytes, StunError, StunResult, parse_stun}
use natcat.Text.{Text}

-- A packet that arrived, with the text of its source, none where the source is nil.
pub record Packet : Type 0 where
  pub bytes : Bytes
  pub addr : Option Text

-- The size of the channel `stunResponses`.
abbrev pub responses_size : ℕ
responses_size = 8

-- The `select` that sends a result, or drops it where the channel is full.
unfoldable pub offer : StunResult → List StunResult → List StunResult
offer result queue = if ltb (length queue) responses_size then queue ++ result ∷ [] else queue

abbrev pub with_source : Option Text → StunResult → StunResult
with_source none result = result
with_source (some source) result = record result { source = source }

-- What `ReadFrom` leaves: the channel, the packets that have not been read, and the packet for QUIC
-- with its bytes cut to the buffer, none where the read failed.
pub record ReadFrom : Type 0 where
  pub queue : List StunResult
  pub unread : List Packet
  pub for_quic : Option Packet

-- `ReadFrom` with a buffer of `limit` bytes, on the packets that arrive before the socket fails.
unfoldable pub read_from : ℕ → List Packet → List StunResult → ReadFrom
unfolding offer
read_from limit [] queue = record { queue = queue; unread = []; for_quic = none }
read_from limit (packet ∷ packets) queue = elim (parse_stun packet.bytes) [
  | ok result ↦ read_from limit packets (offer (with_source packet.addr result) queue)
  | err e ↦ record {
    queue = queue;
    unread = packets;
    for_quic = some (record { bytes = take limit packet.bytes; addr = packet.addr });
  }
]

-- One of the packets that no STUN response can be read from, cut to the buffer.
abbrev pub IsForQuic : ℕ → List Packet → Packet → Type 0
IsForQuic limit packets given =
    (packet : Packet) × (e : StunError) × Mem packet packets
    × (parse_stun packet.bytes ≡ err e)
    × (given ≡ record { bytes = take limit packet.bytes; addr = packet.addr })

length-offer :
    (result : StunResult) (queue : List StunResult)
    → length queue ≤ responses_size
    → length (offer result queue) ≤ responses_size
unfolding offer
length-offer result queue h = ground (arith, length-append queue (result ∷ []))

more-IsForQuic :
    (limit : ℕ) (packet : Packet) (packets : List Packet) (given : Packet)
    → IsForQuic limit packets given
    → IsForQuic limit (packet ∷ packets) given
more-IsForQuic limit packet packets given (found, e, there, bad, cut) =
    (found, e, mem-cons_of_mem packet there, bad, cut)

now_given : {A : Type 0} {a b : A} → some a ≡ some b → b ≡ a
now_given h = cc

-- A channel within its size stays within it through a read, and QUIC is never given a packet that
-- is a STUN response: what it is given is a packet that arrived and does not parse as one, cut to
-- the buffer.
pub read_from-IsForQuic :
    (limit : ℕ) (packets : List Packet) (queue : List StunResult)
    → length queue ≤ responses_size
    → (length (read_from limit packets queue).queue ≤ responses_size)
      × ((given : Packet)
          → (read_from limit packets queue).for_quic ≡ some given
          → IsForQuic limit packets given)
unfolding read_from
read_from-IsForQuic limit [] queue h = (h, λ given e. cc)
read_from-IsForQuic limit (packet ∷ packets) queue h =
    elim (Result-cases (parse_stun packet.bytes)) [
      | inl (result, e) ↦
          let rest =
            read_from-IsForQuic limit packets (offer (with_source packet.addr result) queue)
              (length-offer (with_source packet.addr result) queue h) in
          rw (read_from, e)
            (rest.0, λ given f. more-IsForQuic limit packet packets given (rest.1 given f))
      | inr (bad, e) ↦
          rw (read_from, e) (h, λ given f. (packet, bad, mem-cons_self, e, now_given f))
    ]
