-- ===== src/Mesh/Channel.antt =====
-- src/mesh.c: the codec of group texts on public channels.
pub mod Agree
use meshcore_repeater.Common.{
  ℕ, ◌+◌, ◌-◌, ◌*◌, ◌/◌, ◌%◌, not, ◌||◌, List, [], ◌∷◌, ◌++◌, Option, none, some, ◌==◌, ltb,
  if◌then◌else◌, length, take, drop, get_or, replicate, write_at, Result, ok, err,
}
use meshcore_repeater.Common.Text.{cstr, codes, split_sep}
use meshcore_repeater.Util.Endian.{wr_u32le}
use meshcore_repeater.Crypto.{Crypto, hmac_sha256}
use meshcore_repeater.Config.{Channel}
use meshcore_repeater.Packet.{Packet, max_packet_payload, make_header, payload_grp_txt}
use meshcore_repeater.Packet.Codec.{zero_packet, zero_payload}

-- The plaintext, without the NUL that is put behind it; `none` is -1.
unfoldable pub channel_decrypt : Crypto → Channel → Packet → ℕ → Option (List ℕ)
channel_decrypt c ch p outsz =
    let ctlen = p.payload_len - 3 in
    if ltb p.payload_len 19
    then none
    else if not (ctlen % 16 == 0) || ltb outsz (ctlen + 1)
    then none
    else some (c.aes_decrypt ch.secret (take ctlen (drop 3 p.payload)))

-- The text of a plaintext, behind its timestamp and type.
abbrev pub plain_text : List ℕ → List ℕ
plain_text plain = cstr (drop 5 plain)

-- What stands behind the first ": ", or the whole text; `none` for a plaintext that is too short.
unfoldable pub grp_message_body : List ℕ → Option (List ℕ)
grp_message_body plain =
    if ltb (length plain) 5 then none else elim (split_sep (plain_text plain)) [
      | none ↦ some (plain_text plain)
      | some (before, after) ↦ some after
    ]

-- What stands before the first ": ", into a buffer of `outsz` bytes.
unfoldable pub grp_sender_name : List ℕ → ℕ → List ℕ
grp_sender_name plain outsz = elim (split_sep (plain_text plain)) [
  | none ↦ []
  | some (before, after) ↦ take (outsz - 1) before
]

-- The plaintext of "sender: text", zero-padded to whole AES blocks.
unfoldable pub grp_plain : List ℕ → List ℕ → ℕ → List ℕ
grp_plain sender text ts =
    let used = wr_u32le ts ++ (0 ∷ (sender ++ (codes ": " ++ text))) in
    used ++ replicate ((length used + 15) / 16 * 16 - length used) 0

-- A text that does not fit a packet is refused, before the source would read what snprintf cut off.
unfoldable pub channel_build_txt : Crypto → Channel → List ℕ → List ℕ → ℕ → ℕ → Result Packet
unfolding grp_plain
channel_build_txt c ch sender text ts route =
    let plain = grp_plain sender text ts in
    if ltb max_packet_payload (3 + length plain)
    then err 1
    else let ct = c.aes_encrypt ch.secret plain in
      let mac = hmac_sha256 c ch.secret ct in
      ok (record zero_packet {
        header = make_header 0 payload_grp_txt route;
        payload = write_at 0 (ch.hash ∷ get_or mac 0 0 ∷ get_or mac 1 0 ∷ ct) zero_payload;
        payload_len = 3 + length plain;
      })
