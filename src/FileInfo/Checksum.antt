-- ===== src/FileInfo/Checksum.antt =====
-- `get_crc` of include/MimeDetector.hpp computes the CRC-32 that a shift register computes bit by bit.
use cloud_node.Base.{
  if◌then◌else◌, All, ◌==◌, nat_ord, Text, text_ord, pair_ord, ℕ, zero, suc, ◌+◌, ◌*◌, ◌/◌, ◌%◌,
  ◌^◌, ◌<◌, bit_xor, ◌≡◌, refl, sym, ap, ◌∙◌, some, [], ◌∷◌, arith,
}
use native.Mathlib.Nat.{pow-suc}
use cloud_node.Base.Bits.{
  xor_half, xor_parity, xor_comm, xor_assoc, zero-xor, xor-zero, xor_bound, and_0xff, and_1,
  times_two, half_of,
}
use cloud_node.FileInfo.{shifted, table_from, at, xor_entry, update, updates, inverted, get_crc}

-- The feedback of a bit, by the polynomial of CRC-32 with its digits reversed.
abbrev pub feedback : ℕ → ℕ
feedback zero = 0
feedback (suc _) = 0xedb88320

-- A shift register that takes in one bit, and the lowest bits of a byte, lowest first.
abbrev pub shift_in : ℕ → ℕ → ℕ
shift_in crc bit = bit_xor (crc / 2) (feedback ((crc + bit) % 2))

unfoldable pub shift_in_bits : ℕ → ℕ → ℕ → ℕ
shift_in_bits zero crc byte = crc
shift_in_bits (suc k) crc byte = shift_in_bits k (shift_in crc (byte % 2)) (byte / 2)

unfoldable pub shift_in_bytes : Text → ℕ → ℕ
shift_in_bytes [] crc = crc
shift_in_bytes (byte ∷ bytes) crc = shift_in_bytes bytes (shift_in_bits 8 crc byte)

-- CRC-32: the register starts with all bits set, and is inverted at the end.
unfoldable pub crc32 : Text → ℕ
crc32 content = bit_xor (shift_in_bytes content 0xffffffff) 0xffffffff

-- One round of the table's loop.
abbrev turn : ℕ → ℕ
turn c = bit_xor (feedback (c % 2)) (c / 2)

if_odd-turn :
    (d h : ℕ) → d < 2 → (if d == 1 then bit_xor 0xedb88320 h else h) ≡ bit_xor (feedback d) h
if_odd-turn zero h b = sym (zero-xor h)
if_odd-turn (suc zero) h b = refl
if_odd-turn (suc (suc d)) h b = absurd (omega arith)

shifted-suc : (k c : ℕ) → shifted (suc k) c ≡ shifted k (turn c)
unfolding shifted
shifted-suc k c =
    ap (λ (d : ℕ). shifted k (if d == 1 then bit_xor 0xedb88320 (c / 2) else c / 2)) (and_1 c)
    ∙ ap (shifted k) (if_odd-turn (c % 2) (c / 2) (omega arith))

feedback-xor :
    (d e : ℕ) → d < 2 → e < 2 → feedback ((d + e) % 2) ≡ bit_xor (feedback d) (feedback e)
feedback-xor zero zero h g = refl
feedback-xor zero (suc zero) h g = refl
feedback-xor (suc zero) zero h g = refl
feedback-xor (suc zero) (suc zero) h g = refl
feedback-xor (suc (suc d)) e h g = absurd (omega arith)
feedback-xor zero (suc (suc e)) h g = absurd (omega arith)
feedback-xor (suc zero) (suc (suc e)) h g = absurd (omega arith)

xor_swap : (p q x y : ℕ) → bit_xor (bit_xor p q) (bit_xor x y) ≡ bit_xor (bit_xor p x) (bit_xor q y)
xor_swap p q x y =
    xor_assoc p q (bit_xor x y)
    ∙ (ap (bit_xor p)
          (sym (xor_assoc q x y) ∙ (ap (λ (d : ℕ). bit_xor d y) (xor_comm q x) ∙ xor_assoc x q y))
        ∙ sym (xor_assoc p x (bit_xor q y)))

turn-xor : (a b : ℕ) → turn (bit_xor a b) ≡ bit_xor (turn a) (turn b)
turn-xor a b =
    ap (λ (d : ℕ). bit_xor (feedback d) (bit_xor a b / 2)) (omega (arith, xor_parity a b))
    ∙ (ap (bit_xor (feedback ((a % 2 + b % 2) % 2))) (xor_half a b)
        ∙ (ap (λ (d : ℕ). bit_xor d (bit_xor (a / 2) (b / 2)))
              (feedback-xor (a % 2) (b % 2) (omega arith) (omega arith))
            ∙ xor_swap (feedback (a % 2)) (feedback (b % 2)) (a / 2) (b / 2)))

shifted-xor : (k a b : ℕ) → shifted k (bit_xor a b) ≡ bit_xor (shifted k a) (shifted k b)
unfolding shifted
shifted-xor zero a b = refl
shifted-xor (suc k) a b =
    shifted-suc k (bit_xor a b)
    ∙ (ap (shifted k) (turn-xor a b)
        ∙ (shifted-xor k (turn a) (turn b)
            ∙ (ap (bit_xor (shifted k (turn a))) (sym (shifted-suc k b))
                ∙ ap (λ (d : ℕ). bit_xor d (shifted (suc k) b)) (sym (shifted-suc k a)))))

above_zero : (h l : ℕ) → l < 1 → l + h * 1 ≡ bit_xor l h
above_zero h zero b = omega (arith, zero-xor h)
above_zero h (suc l) b = absurd (omega arith)

-- What is above the bits that are shifted out comes down as it is.
shifted-above : (k h l : ℕ) → l < 2 ^ k → shifted k (l + h * 2 ^ k) ≡ bit_xor (shifted k l) h
unfolding shifted
shifted-above zero h l b = above_zero h l b
shifted-above (suc k) h l b =
    shifted-suc k (l + h * 2 ^ suc k)
    ∙ (ap (shifted k) (turn_parts k h l)
        ∙ (shifted-xor k (feedback (l % 2)) (l / 2 + h * 2 ^ k)
            ∙ (ap (bit_xor (shifted k (feedback (l % 2))))
                  (shifted-above k h (l / 2) (omega (arith, pow-suc 2 k)))
                ∙ (sym (xor_assoc (shifted k (feedback (l % 2))) (shifted k (l / 2)) h)
                    ∙ ap (λ (d : ℕ). bit_xor d h)
                        (sym (shifted-xor k (feedback (l % 2)) (l / 2)) ∙ sym (shifted-suc k l))))))
  where
    turn_parts :
        (k h l : ℕ) → turn (l + h * 2 ^ suc k) ≡ bit_xor (feedback (l % 2)) (l / 2 + h * 2 ^ k)
    turn_parts k h l =
        ap (λ (p : ℕ). turn (l + h * p)) (pow-suc 2 k)
        ∙ (ap (λ (d : ℕ). bit_xor (feedback d) ((l + h * (2 ^ k * 2)) / 2))
              (omega (arith, times_two h (2 ^ k)))
            ∙ ap (bit_xor (feedback (l % 2))) (half_of h (2 ^ k) l))

at-table_from : (n i j : ℕ) → j < n → at (table_from n i) j ≡ some (shifted 8 (i + j))
unfolding table_from
at-table_from zero i j h = absurd (omega arith)
at-table_from (suc n) i zero h =
    ap (λ (k : ℕ). some (shifted 8 k)) {x = i} {y = i + 0} (omega arith)
at-table_from (suc n) i (suc j) h =
    at-table_from n (suc i) j (omega arith)
    ∙ ap (λ (k : ℕ). some (shifted 8 k)) {x = suc i + j} {y = i + suc j} (omega arith)

at-table : (j : ℕ) → j < 256 → at (table_from 256 0) j ≡ some (shifted 8 j)
at-table j h =
    at-table_from 256 0 j h ∙ ap (λ (k : ℕ). some (shifted 8 k)) {x = 0 + j} {y = j} (omega arith)

halved : ℕ → ℕ → ℕ
halved zero a = a
halved (suc k) a = halved k (a / 2)

halved-xor : (k a b : ℕ) → halved k (bit_xor a b) ≡ bit_xor (halved k a) (halved k b)
unfolding halved
halved-xor zero a b = refl
halved-xor (suc k) a b = ap (halved k) (xor_half a b) ∙ halved-xor k (a / 2) (b / 2)

halved-8 : (a : ℕ) → halved 8 a ≡ a / 256
unfolding halved
halved-8 a = omega arith

-- A byte leaves what is above the lowest byte as it is.
xor_byte : (a byte : ℕ) → byte < 256 → bit_xor a byte / 256 ≡ a / 256
xor_byte a byte h =
    sym (halved-8 (bit_xor a byte))
    ∙ (halved-xor 8 a byte
        ∙ (ap (bit_xor (halved 8 a)) (halved-8 byte ∙ omega arith)
            ∙ (xor-zero (halved 8 a) ∙ halved-8 a)))

update-shifted :
    (crc byte : ℕ)
    → byte < 256
    → update (table_from 256 0) crc byte ≡ some (shifted 8 (bit_xor crc byte))
unfolding update
update-shifted crc byte h =
    let x = bit_xor crc byte in
    ap (λ (i : ℕ). xor_entry (crc / 256) (at (table_from 256 0) i)) (and_0xff x)
    ∙ (ap (xor_entry (crc / 256)) (at-table (x % 256) (omega arith))
        ∙ ap some (
            ap (bit_xor (shifted 8 (x % 256))) (sym (xor_byte crc byte h))
            ∙ (sym (shifted-above 8 (x / 256) (x % 256) (omega arith)) ∙ ap (shifted 8) (parts x))))
  where
    parts : (x : ℕ) → x % 256 + x / 256 * 2 ^ 8 ≡ x
    parts x = omega arith

shift_in_bits-shifted :
    (k crc byte : ℕ) → byte < 2 ^ k → shift_in_bits k crc byte ≡ shifted k (bit_xor crc byte)
unfolding shift_in_bits shifted
shift_in_bits-shifted zero crc byte h =
    sym (ap (bit_xor crc) {x = byte} {y = 0} (omega arith) ∙ xor-zero crc)
shift_in_bits-shifted (suc k) crc byte h =
    shift_in_bits-shifted k (shift_in crc (byte % 2)) (byte / 2) (omega (arith, pow-suc 2 k))
    ∙ (ap (shifted k) (sym (turn_byte crc byte)) ∙ sym (shifted-suc k (bit_xor crc byte)))
  where
    turn_byte :
        (crc byte : ℕ) → turn (bit_xor crc byte) ≡ bit_xor (shift_in crc (byte % 2)) (byte / 2)
    turn_byte crc byte =
        ap (λ (d : ℕ). bit_xor (feedback d) (bit_xor crc byte / 2))
          (omega (arith, xor_parity crc byte))
        ∙ (ap (bit_xor (feedback ((crc + byte % 2) % 2))) (xor_half crc byte)
            ∙ (sym (xor_assoc (feedback ((crc + byte % 2) % 2)) (crc / 2) (byte / 2))
                ∙ ap (λ (d : ℕ). bit_xor d (byte / 2))
                    (xor_comm (feedback ((crc + byte % 2) % 2)) (crc / 2))))

updates-shift_in_bytes :
    (content : Text) (crc : ℕ)
    → All (λ byte. byte < 256) content
    → updates (table_from 256 0) content crc ≡ some (shift_in_bytes content crc)
unfolding updates shift_in_bytes
updates-shift_in_bytes [] crc h = refl
updates-shift_in_bytes (byte ∷ bytes) crc (h, hs) = rw (update-shifted crc byte h) (
    rw (sym (shift_in_bits-shifted 8 crc byte h))
      (updates-shift_in_bytes bytes (shift_in_bits 8 crc byte) hs))

feedback_bound : (d : ℕ) → feedback d < 2 ^ 32
feedback_bound zero = omega arith
feedback_bound (suc d) = omega arith

shift_in_bits_bound : (k crc byte : ℕ) → crc < 2 ^ 32 → shift_in_bits k crc byte < 2 ^ 32
unfolding shift_in_bits
shift_in_bits_bound zero crc byte h = h
shift_in_bits_bound (suc k) crc byte h =
    shift_in_bits_bound k (shift_in crc (byte % 2)) (byte / 2) (
      xor_bound 32 (crc / 2) (feedback ((crc + byte % 2) % 2)) (omega arith)
        (feedback_bound ((crc + byte % 2) % 2)))

shift_in_bytes_bound :
    (content : Text) (crc : ℕ) → crc < 2 ^ 32 → shift_in_bytes content crc < 2 ^ 32
unfolding shift_in_bytes
shift_in_bytes_bound [] crc h = h
shift_in_bytes_bound (byte ∷ bytes) crc h =
    shift_in_bytes_bound bytes (shift_in_bits 8 crc byte) (shift_in_bits_bound 8 crc byte h)

-- For a content of bytes, the checksum by the table is the CRC-32 that the shift register computes,
-- no index is past the table's end, and the checksum fits 32 bits.
pub get_crc-crc32 :
    (content : Text)
    → All (λ byte. byte < 256) content
    → (get_crc content ≡ some (crc32 content)) × (crc32 content < 2 ^ 32)
unfolding get_crc crc32
get_crc-crc32 content h = (
  ap inverted (updates-shift_in_bytes content 0xffffffff h),
  xor_bound 32 (shift_in_bytes content 0xffffffff) 0xffffffff
      (shift_in_bytes_bound content 0xffffffff (omega arith)) (omega arith),
)
