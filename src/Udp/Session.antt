-- ===== src/Udp/Session.antt =====
-- `InitUDP` and `OpenSocket` of JNI/Common, and the packets sent after them.
use piwxrx.Prelude.{
  ℕ, ◌≡◌, refl, ◌∙◌, ap, ap₂, Bool, true, false, List, [], Option, some, length, length-drop, drop,
  if◌then◌else◌, arith,
}
use piwxrx.Prelude.Int.{ℤ, pos, eqb_ℤ, ltb_ℤ}
use piwxrx.Codecs.{codec_none}
use piwxrx.Udp.{
  Udp, Opening, Socket, load_header, send_all, init_udp, init_mode, open_socket, set_address,
}
use piwxrx.Udp.Header.{Header, IsValid, with_header, marked, marked-IsValid, load_header_lem}
use piwxrx.Udp.Stream.{IsReady, AreShort, packets, outputs, send_all_lem}

-- The socket's globals after `OpenSocket`.
abbrev pub connected : (List ℕ → Option ℕ) → Opening → List ℕ → ℕ → List ℕ → ℕ → Socket → Socket
connected inet_pton o remoteip remote_port myip myport s = record {
  my_addr = set_address (inet_pton myip) myport s.my_addr;
  remote_addr = set_address (inet_pton remoteip) remote_port s.remote_addr;
  datagram = o.socket_result;
}

module _ (inet_pton : List ℕ → Option ℕ) (o : Opening)
    (opened : ltb_ℤ o.socket_result (pos 0) ≡ false)
    (bound : ltb_ℤ o.bind_result (pos 0) ≡ false) where
  open_socket-connected :
      (remoteip : List ℕ) (remote_port : ℕ) (myip : List ℕ) (myport : ℕ) (s : Socket)
      → open_socket inet_pton o remoteip remote_port myip myport s
        ≡ (true, connected inet_pton o remoteip remote_port myip myport s)
  unfolding open_socket
  open_socket-connected remoteip remote_port myip myport s =
      let s' = connected inet_pton o remoteip remote_port myip myport s in
      ap₂ (λ a b. if a then (false, s') else if b then (false, s') else (true, s')) opened bound

  pub init_udp-loaded :
      (block hdr remoteip : List ℕ) (remote_port : ℕ) (myip : List ℕ) (myport : ℕ) (codec : ℤ)
      (gain : ℕ) (u : Udp)
      → eqb_ℤ codec codec_none ≡ false
      → let u1 = load_header hdr block (record u { codec = codec; gain = gain }) in
        init_udp inet_pton o (some block) hdr remoteip remote_port myip myport codec gain u ≡ (
          true,
          record u1 {
            socket =
                connected inet_pton o (drop 1 remoteip) remote_port (drop 1 myip) myport u1.socket;
          },
        )
  unfolding init_udp
  init_udp-loaded block hdr remoteip remote_port myip myport codec gain u coded =
      let u1 : Udp = record u { codec = codec; gain = gain } in
      let u2 = load_header hdr block u1 in
      let connect = open_socket inet_pton o (drop 1 remoteip) remote_port (drop 1 myip) myport in
      ap (λ c. if c then (true, u1) else init_mode (some block) hdr connect u1) coded
      ∙ ap (λ r. (r.0, record u2 { socket = r.1 }))
          (open_socket-connected (drop 1 remoteip) remote_port (drop 1 myip) myport u2.socket)

-- The globals after an `InitUDP` that succeeds.
module _ (inet_pton : List ℕ → Option ℕ) (o : Opening) (block : List ℕ) (h : Header)
    (remoteip : List ℕ) (remote_port : ℕ) (myip : List ℕ) (myport : ℕ) (codec : ℤ) (gain : ℕ)
    (u : Udp) where
  abbrev pub with_codec : Udp
  with_codec = record u { codec = codec; gain = gain }

  abbrev pub loaded : Udp
  loaded = record (load_header (with_header h []) block with_codec) {
    socket =
        connected inet_pton o (drop 1 remoteip) remote_port (drop 1 myip) myport
          (load_header (with_header h []) block with_codec).socket;
  }

  pub loaded-IsReady : length block ≡ 484 → IsValid h → IsReady loaded (marked h)
  unfolding load_header
  loaded-IsReady size v =
      let lem = load_header_lem h block with_codec v in
      record {
        rest = drop 12 block;
        room = omega (arith, length-drop 12 block);
        holds = lem.0;
        valid = marked-IsValid v;
        agrees = record { sequence = lem.1.sequence; timestamp = lem.1.timestamp };
      }

-- `InitUDP` with a codec, a block from malloc, a header of twelve bytes and a socket that opens
-- returns TRUE, and the calls of `SendUDPPacket` that follow send the datagrams of that header, with
-- its mark set on the first, to the port given and the address that `inet_pton` reads.
pub init_udp-send_all :
    (inet_pton : List ℕ → Option ℕ) (o : Opening) (block : List ℕ) (h : Header) (remoteip : List ℕ)
    (remote_port : ℕ) (myip : List ℕ) (myport : ℕ) (codec : ℤ) (gain : ℕ) (deemphasis : Bool)
    (calls : List (List ℤ × ℕ)) (u : Udp)
    → eqb_ℤ codec codec_none ≡ false
    → length block ≡ 484
    → IsValid h
    → ltb_ℤ o.socket_result (pos 0) ≡ false
    → ltb_ℤ o.bind_result (pos 0) ≡ false
    → AreShort calls
    → let r =
        init_udp inet_pton o
          (some block)
          (with_header h [])
          remoteip
          remote_port
          myip
          myport
          codec
          gain
          u in
      (r.0 ≡ true)
      × (outputs (send_all deemphasis calls r.1)
          ≡ some (
              packets
                (set_address (inet_pton (drop 1 remoteip)) remote_port u.socket.remote_addr)
                deemphasis
                codec
                gain
                calls
                (marked h)
                u.state))
unfolding load_header
init_udp-send_all inet_pton o block h remoteip remote_port myip myport codec gain deemphasis calls u
      coded size v opened bound short =
    let u3 = loaded inet_pton o block h remoteip remote_port myip myport codec gain u in
    let ready =
      loaded-IsReady inet_pton o block h remoteip remote_port myip myport codec gain u size v in
    rw
      (init_udp-loaded inet_pton o opened bound block (with_header h []) remoteip remote_port myip
        myport codec gain u coded)
      (refl, send_all_lem deemphasis calls u3 coded ready short)
