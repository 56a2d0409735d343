-- ===== src/Tests/Provider.antt =====
-- An established connection over a network of lists.
use mls_tls_protocol.Base.{
  ℕ, zero, suc, ◌<◌, ◌≡◌, ◌↔◌, List, [], ◌∷◌, ◌++◌, false, Option, none, some, Result, ok, err,
  length, arith,
}
use mls_tls_protocol.Base.Bytes.{Octets}
use mls_tls_protocol.TlsAead.Frame.{TlsPacketIn}
use mls_tls_protocol.MlsHandshake.Client.State.{running}
use mls_tls_protocol.MlsHandshake.Driver.{client_state}
use mls_tls_protocol.EncryptionProvider.Parameters.{
  InnerPlaintext, application, signaling, Network, Environment,
}
use mls_tls_protocol.EncryptionProvider.Channels.{ProtectedChannels}
use mls_tls_protocol.EncryptionProvider.Established
use mls_tls_protocol.EncryptionProvider.Established.{Provider, read_bytes_inner, process_signaling}
use mls_tls_protocol.EncryptionProvider.Established.Reading.{
  Reads, IsFinite, read_bytes_inner-Reads, read_bytes_inner_total,
}
use mls_tls_protocol.Tests.Toy.{replicate, toy_crypto, toy_clock}
use mls_tls_protocol.Tests.ToyMls.{toy_mls, toy_wire, empty_sql, client_in}
use mls_tls_protocol.Tests.Channel.{sender}
use mls_tls_protocol.Tests.Updates.{database}

abbrev next_packet : List TlsPacketIn → Option (Result (Unit {0}) TlsPacketIn) × List TlsPacketIn
next_packet [] = (none, [])
next_packet (p ∷ ps) = (some (ok p), ps)

abbrev pub toy_network : Network
toy_network = record {
  IoError = Unit {0};
  Socket = List TlsPacketIn;
  Reader = List TlsPacketIn;
  Writer = List Octets;
  peer_addr = λ s. ok [];
  frame = λ s. (s, []);
  next = next_packet;
  writer_ready = λ w. (ok tt, w);
  start_send = λ b w. (ok tt, w ++ (b ∷ []));
  flush = λ w. (ok tt, w);
  close = λ w. (ok tt, w);
}

abbrev pub write_plaintext : InnerPlaintext → Result (Unit {0}) Octets
write_plaintext (application b) = ok (0 ∷ b)
write_plaintext (signaling b) = ok (1 ∷ b)

abbrev pub read_plaintext : Octets → Result (Unit {0}) InnerPlaintext
read_plaintext (zero ∷ b) = ok (application b)
read_plaintext (suc zero ∷ b) = ok (signaling b)
read_plaintext _ = err tt

abbrev pub toy_environment : Environment
toy_environment = record {
  C = toy_crypto;
  O = toy_mls;
  W = toy_wire;
  Q = empty_sql;
  K = toy_clock;
  N = toy_network;
  serialize = write_plaintext;
  deserialize = read_plaintext;
}

-- A packet that the toy cipher opens to `b`.
abbrev pub packet : Octets → TlsPacketIn
packet b = record { header = []; body = b ++ (23 ∷ replicate 16 0) }

abbrev pub channels_of : List TlsPacketIn → ProtectedChannels toy_environment
channels_of packets = record {
  reader = packets;
  writer = record { inner = []; buffer = [] };
  cipher = record sender { max_frame_size = 100 };
}

abbrev pub Toy : Type 0
Toy = Provider toy_environment (Unit {0})

-- A client that runs, with packets to read and a limit of ten bytes of which some are used.
abbrev pub client_with : List TlsPacketIn → ℕ → Toy
client_with packets used = record {
  state = record {
    handshake = record {
      leaf_signer = tt;
      connection = database 4;
      state = client_state (client_in running);
    };
    channels = channels_of packets;
  };
  address = [];
  update_policy = record {
    time_based = none;
    traffic_based = some (record { update_threshold = 10; bytes_transferred = used });
  };
}

-- A packet of two bytes for the application.
abbrev pub waiting_packet : Toy
waiting_packet = client_with (packet (0 ∷ 8 ∷ 9 ∷ []) ∷ []) 0

abbrev read_out : Toy
read_out = record waiting_packet {
  state = record waiting_packet.state {
    channels = record (channels_of []) {
      cipher = record sender { max_frame_size = 100; recv_seq = 1 };
    };
  };
}

read_bytes_inner-Reads_example :
    Reads toy_environment (Unit {0}) false waiting_packet (ok (some (8 ∷ 9 ∷ [])), read_out) ↔ (
      (fuel : ℕ) × (read_bytes_inner toy_environment (Unit {0}) fuel false waiting_packet
        ≡ some (ok (some (8 ∷ 9 ∷ [])), read_out)))
read_bytes_inner-Reads_example =
    read_bytes_inner-Reads toy_environment (Unit {0}) false waiting_packet
      (ok (some (8 ∷ 9 ∷ [])), read_out)

list_takes :
    (r : List TlsPacketIn) {x : Result (Unit {0}) TlsPacketIn}
    → (next_packet r).0 ≡ some x
    → length (next_packet r).1 < length r
list_takes [] e = cc
list_takes (p ∷ ps) e = omega arith

finite : IsFinite toy_environment (Unit {0}) false length
finite = record { next_takes = list_takes }

read_bytes_inner_total_example :
    (o : Result (Established.Error toy_environment (Unit {0})) (Option Octets) × Toy)
    × (read_bytes_inner toy_environment (Unit {0}) 1 false waiting_packet ≡ some o)
read_bytes_inner_total_example =
    read_bytes_inner_total toy_environment (Unit {0}) false length finite 1 waiting_packet
      (omega arith)
