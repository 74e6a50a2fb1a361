-- ===== src/Examples/Checking.antt =====
-- Checksums, identifiers, and files read in chunks.
use cloud_node.Base.{
  length, nat_ord, Text, text, text_ord, pair_ord, ◌+◌, ◌^◌, ◌<◌, ◌≡◌, refl, some, List, arith,
}
use cloud_node.FileInfo.{get_crc}
use cloud_node.FileInfo.Checksum.{crc32, shift_in_bits, shift_in_bytes, get_crc-crc32}
use cloud_node.Client.Incoming.Transfer.{concat}
use cloud_node.Client.Channel.{read_chunks}
use cloud_node.Client.Channel.Reading.{Fits, read_chunks-ends}

-- The check value of CRC-32
crc32_check : crc32 (text "123456789") ≡ 0xcbf43926
unfolding crc32 shift_in_bits shift_in_bytes
crc32_check = refl

get_crc-crc32_example :
    (get_crc (text "abc") ≡ some (crc32 (text "abc"))) × (crc32 (text "abc") < 2 ^ 32)
get_crc-crc32_example = get_crc-crc32 (text "abc") (omega arith, (omega arith, (omega arith, tt)))

read_chunks-ends_example :
    (chunks : List Text) × (read_chunks (length (text "abcde") + 1) 2 (text "abcde") ≡ some chunks)
    × (concat chunks ≡ text "abcde")
    × Fits 2 chunks
read_chunks-ends_example = read_chunks-ends 2 (text "abcde") (omega arith)
