-- ===== src/Ssh/Encrypted/Received.antt =====
-- An encrypted packet of plugins/terminal-proxy/lib/ssh.js as `readSSHv2PDUData` takes it apart.
use mathlib.Core.List.{append-nil}
use zlux_server_framework.Base.{
  ℕ, ◌+◌, ◌-◌, ◌≤◌, ◌<◌, true, false, some, [], ◌++◌, ◌≡◌, refl, sym, ap, ◌∙◌, arith, ltb, length,
  length-append,
}
use zlux_server_framework.Base.Outcome.{ok}
use zlux_server_framework.Ssh.Bytes.{
  Bytes, drop_bytes, alloc_copy, read_uint32_be, drop_bytes-append, drop_bytes_twice,
  alloc_copy-append,
}
use zlux_server_framework.Ssh.Packet.{
  max_packet_size, Transport, padding_length, mac_of, first_bytes,
}
use zlux_server_framework.Ssh.Unpack.{
  packet, go_on, slice, with_cipher, first_block, other_blocks, decrypt, check_mac,
  read_ssh_v2_pdu_data,
}
use zlux_server_framework.Ssh.Slices.{
  same_text-same, first_bytes-append, read_uint32_be_within, drop_bytes-append_two,
  drop_bytes-alloc_copy,
}
use zlux_server_framework.Ssh.Parts.{Parts, read_uint32_be-Parts, counted, take_packet-Parts}

module _ {Cipher : Type 0} (update : Cipher → Bytes → Cipher × Bytes) where
  first_block-whole :
      (c c1 : Cipher) (t : Transport Cipher) (raw out1 p1 : Bytes) (position : ℕ)
      → t.is_first_block_decrypted ≡ false
      → t.reading.block_length + position < length raw
      → slice position t.reading.block_length raw ≡ out1
      → update c out1 ≡ (c1, p1)
      → first_block update c t raw position ≡ some (with_cipher update c1 t, p1)
  unfolding first_block
  first_block-whole c c1 t raw out1 p1 position fresh enough here up =
      let long : ltb (t.reading.block_length + position) (length raw) ≡ true =
        ground (arith, enough) in
      rw (fresh, long, here, up) refl

  other_blocks-whole :
      (c c2 : Cipher) (t : Transport Cipher) (raw p1 out2 p2 : Bytes) (position n : ℕ)
      (mac : Bytes → Bytes)
      → n ≤ max_packet_size + 4 + t.reading.mac_length + 50
      → position + (n + t.reading.mac_length + 4) ≤ length raw
      → t.reading.block_length ≤ n + 4
      → alloc_copy (n + 4 - t.reading.block_length) (drop_bytes (position + length p1) raw) ≡ out2
      → update c out2 ≡ (c2, p2)
      → t.reading.mac ≡ some mac
      → other_blocks update c t raw position p1 n
        ≡ ok (
          with_cipher update c2 t,
          go_on (alloc_copy position [] ++ (p1 ++ p2)) (some (mac_of t.reading (p1 ++ p2))),
        )
  unfolding other_blocks
  other_blocks-whole c c2 t raw p1 out2 p2 position n mac small enough least here up tm =
      let a : ltb (max_packet_size + 4 + t.reading.mac_length + 50) n ≡ false =
        ground (arith, small) in
      let b : ltb (length raw - position) (n + t.reading.mac_length + 4) ≡ false =
        ground (arith, enough) in
      let d : ltb (n + 4) t.reading.block_length ≡ false = ground (arith, least) in
      simp (a, b, d, here, up, tm)

  decrypt-whole :
      (c c1 c2 : Cipher) (t : Transport Cipher) (raw out1 p1 out2 p2 : Bytes) (position n : ℕ)
      (mac : Bytes → Bytes)
      → t.reading.cipher ≡ some c
      → t.reading.mac ≡ some mac
      → t.is_first_block_decrypted ≡ false
      → n ≤ max_packet_size + 4 + t.reading.mac_length + 50
      → t.reading.block_length + position < length raw
      → position + (n + t.reading.mac_length + 4) ≤ length raw
      → t.reading.block_length ≤ n + 4
      → slice position t.reading.block_length raw ≡ out1
      → update c out1 ≡ (c1, p1)
      → read_uint32_be p1 ≡ ok n
      → alloc_copy (n + 4 - t.reading.block_length) (drop_bytes (position + length p1) raw) ≡ out2
      → update c1 out2 ≡ (c2, p2)
      → decrypt update t raw position
        ≡ ok (
          with_cipher update c2 t,
          go_on (alloc_copy position [] ++ (p1 ++ p2)) (some (mac_of t.reading (p1 ++ p2))),
        )
  unfolding decrypt mac_of
  decrypt-whole c c1 c2 t raw out1 p1 out2 p2 position n mac tc tm fresh small more enough least
        here1 up1 size here2 up2 =
      simp (
        decrypt,
        tc,
        first_block-whole c c1 t raw out1 p1 position fresh more here1 up1,
        size,
        other_blocks-whole c1 c2 (with_cipher update c1 t) raw p1 out2 p2 position n mac small
            enough least here2 up2 tm,
      )

  check_mac-same :
      (t : Transport Cipher) (raw tag more : Bytes) (position : ℕ) (mac : Bytes → Bytes)
      → t.reading.mac ≡ some mac
      → length tag ≡ t.reading.mac_length
      → drop_bytes position raw ≡ tag ++ more
      → check_mac update t raw position (some tag) ≡ ok (position + length tag, true)
  unfolding check_mac
  check_mac-same t raw tag more position mac tm long here =
      let all : alloc_copy (length tag) (tag ++ more) ≡ tag = alloc_copy-append tag more in
      simp (check_mac, tm, ← long, here, all, same_text-same tag)

  -- A packet that came in two updates, with its MAC behind it.
  pub record Came (random : ℕ → Bytes) (t : Transport Cipher) (payload tag : Bytes) : Type 0 where
    pub block : ℕ
    pub c : Cipher
    pub c1 : Cipher
    pub c2 : Cipher
    pub out1 : Bytes
    pub out2 : Bytes
    pub p1 : Bytes
    pub p2 : Bytes
    pub parts : Parts random block payload (p1 ++ p2)
    pub up1 : update c out1 ≡ (c1, p1)
    pub up2 : update c1 out2 ≡ (c2, p2)
    pub whole1 : length out1 ≡ length p1
    pub whole2 : length out2 ≡ length p2
    pub four : 4 ≤ length p1
    pub first_is : t.reading.block_length ≡ length p1
    pub size : length payload + padding_length block (length payload) + 5 ≡ length p1 + length p2
    pub mac : Bytes → Bytes
    pub small : length p1 + length p2 ≤ max_packet_size + 4 + t.reading.mac_length + 50
    pub deciphers : t.reading.cipher ≡ some c
    pub macs : t.reading.mac ≡ some mac
    pub fresh : t.is_first_block_decrypted ≡ false
    pub tag_is : mac_of t.reading (p1 ++ p2) ≡ tag
    pub tag_length : length tag ≡ t.reading.mac_length
    pub some_tag : 1 ≤ length tag

  pub read_ssh_v2_pdu_data-Came :
      (random : ℕ → Bytes) (t : Transport Cipher) (payload tag front more : Bytes)
      (k : Came random t payload tag)
      → read_ssh_v2_pdu_data update t
          (front ++ (k.out1 ++ (k.out2 ++ (tag ++ more))))
          (length front)
        ≡ ok (
          counted (with_cipher update k.c2 t),
          packet
              (length front + (length k.p1 + length k.p2) + length tag)
              (record { payload = payload; offset = 0 })
              true,
        )
  unfolding read_ssh_v2_pdu_data
  read_ssh_v2_pdu_data-Came random t payload tag front more k =
      let raw = front ++ (k.out1 ++ (k.out2 ++ (tag ++ more))) in
      let padding = padding_length k.block (length payload) in
      let n = length payload + padding + 1 in
      let all : length raw ≡ length front + length k.p1 + length k.p2 + length tag + length more =
        omega (
          arith,
          length-append front (k.out1 ++ (k.out2 ++ (tag ++ more))),
          length-append k.out1 (k.out2 ++ (tag ++ more)),
          length-append k.out2 (tag ++ more),
          length-append tag more,
          k.whole1,
          k.whole2,
        ) in
      let n_is : n + 4 ≡ length k.p1 + length k.p2 = omega (arith, k.size) in
      let here1 : slice (length front) t.reading.block_length raw ≡ k.out1 =
        ap (first_bytes t.reading.block_length) (drop_bytes-append front _)
        ∙ ap (λ b. first_bytes b (k.out1 ++ (k.out2 ++ (tag ++ more)))) (k.first_is ∙ sym k.whole1)
        ∙ first_bytes-append k.out1 _ in
      let size_at : read_uint32_be k.p1 ≡ ok n =
        sym (read_uint32_be_within k.p1 k.p2 k.four)
        ∙ read_uint32_be-Parts random k.block payload (k.p1 ++ k.p2) k.parts in
      let two : n + 4 - t.reading.block_length ≡ length k.out2 =
        omega (arith, n_is, k.first_is, k.whole2) in
      let here2 : alloc_copy (n + 4 - t.reading.block_length)
            (drop_bytes (length front + length k.p1) raw)
          ≡ k.out2 =
        ap (λ a. alloc_copy a (drop_bytes (length front + length k.p1) raw)) two
        ∙ ap (λ a. alloc_copy (length k.out2) (drop_bytes (length front + a) raw)) (sym k.whole1)
        ∙ ap (alloc_copy (length k.out2))
            (drop_bytes-append_two front k.out1 (k.out2 ++ (tag ++ more)))
        ∙ alloc_copy-append k.out2 _ in
      let behind : length front + 4 + 1 + (length payload + padding)
          ≡ length front + (length k.p1 + length k.p2) =
        omega (arith, n_is) in
      let outs : length front + 4 + 1 + (length payload + padding)
          ≡ length front + (length k.out1 + length k.out2) =
        omega (arith, n_is, k.whole1, k.whole2) in
      let plain_at : drop_bytes (length front) (alloc_copy (length front) [] ++ (k.p1 ++ k.p2))
          ≡ (k.p1 ++ k.p2) ++ [] =
        drop_bytes-alloc_copy (length front) _ ∙ sym (append-nil (k.p1 ++ k.p2)) in
      let tag_at : drop_bytes (length front + 4 + 1 + (length payload + padding)) raw
          ≡ tag ++ more =
        ap (λ a. drop_bytes a raw) outs
        ∙ drop_bytes_twice (length front) (length k.out1 + length k.out2) raw
        ∙ ap (drop_bytes (length k.out1 + length k.out2)) (drop_bytes-append front _)
        ∙ drop_bytes-append_two k.out1 k.out2 (tag ++ more) in
      let decrypted =
        decrypt-whole k.c k.c1 k.c2 t raw k.out1 k.p1 k.out2 k.p2 (length front) n k.mac k.deciphers
          k.macs k.fresh (omega (arith, n_is, k.small)) (omega (arith, all, k.first_is, k.some_tag))
          (omega (arith, all, n_is, k.tag_length)) (omega (arith, n_is, k.first_is)) here1 k.up1
          size_at here2 k.up2 in
      let read =
        take_packet-Parts update (with_cipher update k.c2 t) random k.block payload (k.p1 ++ k.p2)
          raw (alloc_copy (length front) [] ++ (k.p1 ++ k.p2)) [] (some tag) (length front) k.parts
          plain_at (omega (arith, all, n_is)) in
      let checked =
        check_mac-same (counted (with_cipher update k.c2 t)) raw tag more
          (length front + 4 + 1 + (length payload + padding)) k.mac k.macs k.tag_length tag_at in
      rw (decrypted, k.tag_is) (read ∙ rw (checked, behind) refl)
