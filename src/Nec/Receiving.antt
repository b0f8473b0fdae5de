-- ===== src/Nec/Receiving.antt =====
-- src/platform/ir_service.cpp, finalize_receive: what the receiver reports of the times of a signal.
use factory_test.Common.{
  Bool, true, false, not, ◌&&◌, ◌||◌, ◌==◌, ℕ, zero, suc, ◌<◌, String, str_eq, concat, List, [],
  ◌∷◌, length, ltb, Option, none, some, ◌≡◌, refl, ap, ◌/◌, if◌then◌else◌,
}
use factory_test.Nec.{
  Protocol, nec, necx, nec32, u8, word, NecPacket, make_nec_bytes, parse_nec_bytes,
  encode_nec_packet, decode_nec_packet,
}
use factory_test.Nec.Packets.{decode-encode_nec_packet}
use factory_test.Common.{arith}

-- The field `data` is called `bytes` here.
pub record IrReceiveSnapshot : Type 0 where
  pub opened : Bool
  pub signal_seen : Bool
  pub data_changed : Bool
  pub address_matched : Bool
  pub address_filter_enabled : Bool
  pub expected_address : ℕ
  pub address : ℕ
  pub command : ℕ
  pub bytes : List ℕ
  pub protocol : String
  pub device_path : String
  pub raw_summary : String
  pub message : String

abbrev pub protocol_text : Protocol → String
protocol_text nec = "NEC"
protocol_text necx = "NECX"
protocol_text nec32 = "NEC32"

-- operator== of vectors.
abbrev pub bytes_eq : List ℕ → List ℕ → Bool
bytes_eq [] [] = true
bytes_eq (x ∷ xs) (y ∷ ys) = x == y && bytes_eq xs ys
bytes_eq _ _ = false

-- `show` is the stream's operator<< of a number.
module _ (show : ℕ → String) where
  -- The loop over the first times, with the number of them that is left.
  unfoldable pub summarize_from : Bool → ℕ → List ℕ → String
  summarize_from first zero durations = if not first && ltb 0 (length durations) then " ..." else ""
  summarize_from first (suc count) [] = ""
  summarize_from first (suc count) (duration ∷ durations) =
      concat (if first then "" else ", ")
        (concat (show duration) (concat "us" (summarize_from false count durations)))

  abbrev pub summarize_raw : List ℕ → String
  summarize_raw durations = summarize_from true 12 durations

  abbrev pub raw_received : IrReceiveSnapshot → IrReceiveSnapshot
  raw_received s = record s { message = "IR signal received (raw)" }

  abbrev pub matches : IrReceiveSnapshot → ℕ → Bool
  matches s address = not s.address_filter_enabled || address == s.expected_address

  abbrev pub packet_received : IrReceiveSnapshot → List ℕ → NecPacket → IrReceiveSnapshot
  packet_received s decoded packet =
      let matched = matches s packet.address in
      let protocol = protocol_text packet.protocol in
      record s {
        data_changed =
            not (bytes_eq decoded s.bytes)
            || (not (packet.address == s.address)
                || (not (packet.command == s.command)
                    || (not (str_eq protocol s.protocol)
                        || not (
                            (matched && s.address_matched)
                            || (not matched && not s.address_matched)))));
        bytes = decoded;
        address = packet.address;
        command = packet.command;
        protocol = protocol;
        address_matched = matched;
        message = if matched then concat protocol " packet received" else "NEC address mismatch";
      }

  abbrev pub bytes_received : IrReceiveSnapshot → Option (List ℕ) → IrReceiveSnapshot
  bytes_received s none = raw_received s
  bytes_received s (some decoded) = elim (parse_nec_bytes decoded) [
    | none ↦ raw_received s
    | some packet ↦ packet_received s decoded packet
  ]

  unfoldable pub finalize_receive : IrReceiveSnapshot → List ℕ → IrReceiveSnapshot
  finalize_receive s durations =
      bytes_received
        (record s {
          signal_seen = true;
          raw_summary = summarize_raw durations;
          data_changed = false;
        })
        (decode_nec_packet durations)

  -- A transmitted packet of a 16-bit address and command is reported with both and with its bytes; it
  -- matches exactly if the filter is off or expects this address.
  pub finalize_receive-make_nec_bytes :
      (s : IrReceiveSnapshot) (address command : ℕ)
      → address < 65536
      → command < 65536
      → (let r = finalize_receive s (encode_nec_packet (make_nec_bytes address command)) in
          (r.address ≡ address)
          × (r.command ≡ command)
          × (r.bytes ≡ make_nec_bytes address command)
          × (r.address_matched ≡ matches s address))
  unfolding finalize_receive make_nec_bytes parse_nec_bytes
  finalize_receive-make_nec_bytes s address command a c =
      let sent = decode-encode_nec_packet (make_nec_bytes address command) refl (omega arith) in
      let same_address : word (u8 address) (u8 (address / 256)) ≡ address = omega arith in
      rw (sent, bytes_received) (same_address, omega arith, refl, ap (matches s) same_address)
