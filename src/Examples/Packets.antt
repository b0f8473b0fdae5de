-- ===== src/Examples/Packets.antt =====
-- Packets that are sent and received.
use factory_test.Common.{
  true, false, ℕ, List, ◌∷◌, [], some, ◌+◌, ◌*◌, ◌-◌, ◌≡◌, ◌↔◌, refl, ◌<◌, All, drop, arith,
}
use factory_test.Nec.{
  make_nec_bytes, make_standard_nec_bytes, make_nec_command, parse_nec_bytes, nec,
  encode_nec_packet, decode_nec_packet, decode_nec_packet_from,
}
use factory_test.Nec.Receiving.{
  IrReceiveSnapshot, matches, finalize_receive, finalize_receive-make_nec_bytes,
}
use factory_test.Nec.Packets.{HearsPacket, decode_nec_packet_from_iff, decode-encode_nec_packet}
use factory_test.Nec.Fields.{parse-make_standard_nec_bytes}

abbrev bytes : List ℕ
bytes = 4 ∷ 251 ∷ 8 ∷ 247 ∷ []

bytes-small : All (λ b. b < 256) bytes
bytes-small = omega arith

decode-encode_nec_packet_example : decode_nec_packet (encode_nec_packet bytes) ≡ some bytes
decode-encode_nec_packet_example = decode-encode_nec_packet bytes refl bytes-small

decode_nec_packet_from_iff_example :
    (decode_nec_packet_from (encode_nec_packet bytes) 0 ≡ some bytes)
    ↔ HearsPacket bytes (drop 0 (encode_nec_packet bytes))
decode_nec_packet_from_iff_example = decode_nec_packet_from_iff (encode_nec_packet bytes) 0 bytes

parse-make_standard_nec_bytes_example :
    parse_nec_bytes (make_standard_nec_bytes 4 8)
    ≡ some (record { address = 4 + 256 * (255 - 4); command = make_nec_command 8; protocol = nec })
parse-make_standard_nec_bytes_example =
    parse-make_standard_nec_bytes 4 8 (omega arith) (omega arith)

-- A receiver that expects the address of the packet.
abbrev waiting_for : ℕ → IrReceiveSnapshot
waiting_for address = record {
  opened = true;
  signal_seen = false;
  data_changed = false;
  address_matched = false;
  address_filter_enabled = true;
  expected_address = address;
  address = 0;
  command = 0;
  bytes = [];
  protocol = "";
  device_path = "";
  raw_summary = "";
  message = "";
}

finalize_receive-make_nec_bytes_example :
    let r =
      finalize_receive
        (λ n. "")
        (waiting_for 64260)
        (encode_nec_packet (make_nec_bytes 64260 45067)) in
    (r.address ≡ 64260)
    × (r.command ≡ 45067)
    × (r.bytes ≡ make_nec_bytes 64260 45067)
    × (r.address_matched ≡ matches (λ n. "") (waiting_for 64260) 64260)
finalize_receive-make_nec_bytes_example =
    finalize_receive-make_nec_bytes (λ n. "") (waiting_for 64260) 64260 45067 (omega arith)
      (omega arith)
