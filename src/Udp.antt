-- ===== src/Udp.antt =====
-- JNI/Common/udp.c and JNI/Common/udpsocket.c: RTP packets of encoded samples, sent as datagrams.
-- The calls of the system and of malloc are arguments: what they return. `inet_pton` gives none
-- where it leaves the address as it was.
pub mod Header
pub mod Stream
pub mod Session
use piwxrx.Prelude.{
  ℕ, zero, suc, ◌+◌, ◌*◌, ◌/◌, ◌%◌, ◌^◌, bit_and, bit_or, Bool, true, false, not, List, [], ◌∷◌,
  ◌++◌, Option, none, some, ◌>>=◌, get_or, set, take, drop, length, if◌then◌else◌,
}
use piwxrx.Prelude.Int.{ℤ, pos, negsuc, eqb_ℤ, ltb_ℤ}
use piwxrx.Prelude.Word.{int16, ashr, low_bits, add32}
use piwxrx.Codecs.{codec_none, Encoded, pcm_encode}

abbrev pub hdr2 : ℕ
hdr2 = 1

abbrev pub sseq : ℕ
sseq = 2

abbrev pub timestamp_at : ℕ
timestamp_at = 4

abbrev pub mark : ℕ
mark = 0x80

abbrev pub rtp_hdrlen : ℕ
rtp_hdrlen = 12

-- `sockaddr_in`: the address and the port.
pub record Address : Type 0 where
  pub ip : ℕ
  pub port : ℕ

-- The globals of udpsocket.c.
pub record Socket : Type 0 where
  pub datagram : ℤ
  pub my_addr : Address
  pub remote_addr : Address

-- What `socket` and `bind` return.
pub record Opening : Type 0 where
  pub socket_result : ℤ
  pub bind_result : ℤ

abbrev pub set_address : Option ℕ → ℕ → Address → Address
set_address none port a = record a { port = port % 2 ^ 16 }
set_address (some ip) port a = record { ip = ip; port = port % 2 ^ 16 }

unfoldable pub open_socket :
    (List ℕ → Option ℕ) → Opening → List ℕ → ℕ → List ℕ → ℕ → Socket → Bool × Socket
open_socket inet_pton o remoteip remoteport myip myport s =
    let s' : Socket = record {
      my_addr = set_address (inet_pton myip) myport s.my_addr;
      remote_addr = set_address (inet_pton remoteip) remoteport s.remote_addr;
      datagram = o.socket_result;
    } in
    if ltb_ℤ o.socket_result (pos 0)
    then (false, s')
    else if ltb_ℤ o.bind_result (pos 0)
    then (false, s')
    else (true, s')

-- The globals of udp.c, the filter's state of the encoders and the socket. `buffer` is the block
-- at `UDPbufferPtr`, none for a null pointer.
pub record Udp : Type 0 where
  pub sequence : ℤ
  pub timestamp : ℕ
  pub codec : ℤ
  pub gain : ℕ
  pub buffer : Option (List ℕ)
  pub state : ℤ
  pub socket : Socket

-- Bytes copied over a block from an offset on.
unfoldable pub overwrite : List ℕ → ℕ → List ℕ → List ℕ
overwrite block offset bytes = take offset block ++ bytes ++ drop (offset + length bytes) block

-- The fields read from the header: the bytes that are joined by | have no bit in common.
abbrev pub read_sequence : List ℕ → ℤ
read_sequence b = int16 (pos (get_or b sseq 0 % 2 ^ 8 * 2 ^ 8 + get_or b (sseq + 1) 0 % 2 ^ 8))

abbrev pub read_timestamp : List ℕ → ℕ
read_timestamp b =
    get_or b timestamp_at 0 % 2 ^ 8 * 2 ^ 24
    + get_or b (timestamp_at + 1) 0 % 2 ^ 8 * 2 ^ 16
    + get_or b (timestamp_at + 2) 0 % 2 ^ 8 * 2 ^ 8
    + get_or b (timestamp_at + 3) 0 % 2 ^ 8

-- The part of `InitUDP` that processes the header, in a block from malloc.
unfoldable pub load_header : List ℕ → List ℕ → Udp → Udp
load_header hdr block u =
    let copied = overwrite block 0 hdr in
    let marked = set copied hdr2 (bit_or (get_or copied hdr2 0) mark) in
    record u {
      buffer = some marked;
      sequence = read_sequence marked;
      timestamp = read_timestamp marked;
    }

-- The branches of `InitUDP` on the result of malloc.
abbrev pub init_mode : Option (List ℕ) → List ℕ → (Socket → Bool × Socket) → Udp → Bool × Udp
init_mode none hdr connect u = (false, record u { buffer = none })
init_mode (some block) hdr connect u =
    let u1 = load_header hdr block u in
    let (opened, socket) = connect u1.socket in (opened, record u1 { socket = socket })

-- `hdr` is the header of `nhdrbytes` bytes; `malloc` is the block allocated.
unfoldable pub init_udp :
    (List ℕ → Option ℕ)
    → Opening
    → Option (List ℕ)
    → List ℕ
    → List ℕ
    → ℕ
    → List ℕ
    → ℕ
    → ℤ
    → ℕ
    → Udp
    → Bool × Udp
init_udp inet_pton o malloc hdr remoteip remote_port myip myport codectype gainvalue u =
    let u1 : Udp = record u { codec = codectype; gain = gainvalue } in
    if eqb_ℤ codectype codec_none
    then (true, u1)
    else init_mode malloc hdr
        (open_socket inet_pton o (drop 1 remoteip) remote_port (drop 1 myip) myport) u1

-- The header's fields of the next packet, written after a datagram is sent.
unfoldable pub next_header : ℕ → List ℕ → Udp → Udp
next_header decimlength b u =
    let timestamp = (u.timestamp + decimlength) % 2 ^ 32 in
    let sequence = int16 (add32 u.sequence (pos 1)) in
    let b1 = set b hdr2 (bit_and (get_or b hdr2 0) 0x7f) in
    let b2 = set b1 sseq (low_bits 8 (ashr sequence 8)) in
    let b3 = set b2 (sseq + 1) (low_bits 8 sequence) in
    let b4 = set b3 timestamp_at (timestamp / 2 ^ 24 % 2 ^ 8) in
    let b5 = set b4 (timestamp_at + 1) (timestamp / 2 ^ 16 % 2 ^ 8) in
    let b6 = set b5 (timestamp_at + 2) (timestamp / 2 ^ 8 % 2 ^ 8) in
    let b7 = set b6 (timestamp_at + 3) (timestamp % 2 ^ 8) in
    record u { timestamp = timestamp; sequence = sequence; buffer = some b7 }

-- What goes out: a datagram to an address, or samples on the standard output.
pub data Output : Type 0 where
  sent : Address → List ℕ → Output
  wrote : List ℤ → Output

abbrev pub socket_error : ℤ
socket_error = negsuc 0

-- The datagram of `Send`: the first bytes of a buffer, to the remote address.
unfoldable pub send : List ℕ → ℕ → Socket → Output
send buffer nbytes s = sent s.remote_addr (take nbytes buffer)

-- The result of `Send`, by that of `sendto`.
unfoldable pub send_result : ℤ → Bool
send_result sendto = not (eqb_ℤ sendto socket_error)

-- A packet is sent from a block; the result of `Send` is not used.
unfoldable pub send_from : Encoded → List ℕ → Udp → Output × Udp
send_from e block u =
    let filled = overwrite block rtp_hdrlen e.bytes in
    (send filled (e.result + rtp_hdrlen) u.socket, next_header e.result filled u)

-- The branches of `SendUDPPacket`: the codec is CODEC_NONE or not, and the buffer.
abbrev pub send_mode : Bool → Option (List ℕ) → Encoded → Udp → Option (Output × Udp)
send_mode true buffer e u = some (wrote e.written, u)
send_mode false none e u = none
send_mode false (some block) e u = some (send_from e block u)

-- `SendUDPPacket`, which returns TRUE. None stands for the access to a null pointer.
unfoldable pub send_udp_packet : Bool → List ℤ → ℕ → Udp → Option (Output × Udp)
send_udp_packet deemphasis pipe samplesread u =
    let e = pcm_encode deemphasis pipe samplesread u.codec u.gain u.state in
    send_mode (eqb_ℤ u.codec codec_none) u.buffer e (record u { state = e.state })

-- A sequence of calls, each with a buffer and the number of samples read.
unfoldable pub send_all : Bool → List (List ℤ × ℕ) → Udp → Option (List Output × Udp)
send_all deemphasis [] u = some ([], u)
send_all deemphasis ((pipe, samplesread) ∷ calls) u = do
  (out, u1) ← send_udp_packet deemphasis pipe samplesread u
  (outs, u2) ← send_all deemphasis calls u1
  some (out ∷ outs, u2)

-- The descriptor that `CloseSocket` closes. `datagram` keeps its value.
abbrev pub close_socket : Socket → ℤ
close_socket s = s.datagram

-- The blocks freed and the sockets closed. `UDPbufferPtr` keeps its value.
unfoldable pub close_udp : Udp → Option (List ℕ) × Option ℤ
close_udp u =
    if eqb_ℤ u.codec codec_none then (none, none) else (u.buffer, some (close_socket u.socket))
