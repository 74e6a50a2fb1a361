-- ===== src/FileInfo.antt =====
-- include/MimeDetector.hpp: the checksum of a file and what a file offer says of the file. The magic
-- library and the file system are parameters.
pub mod Checksum
use cloud_node.Base.{
  if◌then◌else◌, ◌>>=◌, ◌==◌, nat_ord, Text, text, text_ord, pair_ord, ℕ, zero, suc, ◌/◌, bit_xor,
  bit_and, ◌⊎◌, inl, inr, Bool, true, false, not, Option, none, some, List, [], ◌∷◌, ◌++◌,
}
use cloud_node.Base.Decimal.{decimal}
use cloud_node.Client.Specs.{is_empty}

-- The loop over `k`: `count` rounds.
unfoldable pub shifted : ℕ → ℕ → ℕ
shifted zero c = c
shifted (suc count) c =
    shifted count (if bit_and c 1 == 1 then bit_xor 0xedb88320 (c / 2) else c / 2)

-- The loop over `i`: `count` entries from `i`.
unfoldable pub table_from : ℕ → ℕ → List ℕ
table_from zero i = []
table_from (suc count) i = shifted 8 i ∷ table_from count (suc i)

-- `table[i]`: an index is masked, and never past the table's end, where the read is not defined.
abbrev pub at : List ℕ → ℕ → Option ℕ
at [] i = none
at (x ∷ xs) zero = some x
at (x ∷ xs) (suc i) = at xs i

abbrev pub xor_entry : ℕ → Option ℕ → Option ℕ
xor_entry above none = none
xor_entry above (some entry) = some (bit_xor entry above)

-- The body of the loop over the bytes.
unfoldable pub update : List ℕ → ℕ → ℕ → Option ℕ
update table crc byte = xor_entry (crc / 256) (at table (bit_and (bit_xor crc byte) 0xff))

-- The bytes of all blocks, one after another.
unfoldable pub updates : List ℕ → Text → ℕ → Option ℕ
updates table [] crc = some crc
updates table (byte ∷ bytes) crc = do next ← update table crc byte; updates table bytes next

abbrev pub inverted : Option ℕ → Option ℕ
inverted none = none
inverted (some crc) = some (bit_xor crc 0xffffffff)

-- `get_crc` of a file that can be opened
unfoldable pub get_crc : Text → Option ℕ
get_crc content = inverted (updates (table_from 256 0) content 0xffffffff)

-- What the magic library and the file system answer: whether a session and its database are there, the
-- type of a content, the content of a file if it can be opened, and its size or what the exception says.
pub record Magic : Type 0 where
  pub opens : Bool
  pub loads : Bool
  pub buffer : Text → Text
  pub content : Text → Option Text
  pub file_size : Text → ℕ ⊎ Text

-- A value, or the text of the exception.
pub data Result : Type 0 where
  value : Text → Result
  throws : Text → Result

abbrev pub cannot_open : Text → Text
cannot_open filename = text "Failed to open file: " ++ filename

unfoldable pub get_mime_type : Magic → Text → Result
get_mime_type magic filename =
    if not magic.opens
    then throws (text "Failed to initialize libmagic")
    else if not magic.loads
    then throws (text "Failed to load libmagic database")
    else elim (magic.content filename) [
      | none ↦ throws (cannot_open filename)
      | some content ↦ value (magic.buffer content)
    ]

abbrev pub info_text : Text → Text → Text → ℕ → ℕ → Text
info_text filename display_name mime size crc =
    text "{\"name\": \""
    ++ ((if is_empty display_name then filename else display_name)
        ++ (text "\", \"size\": "
            ++ (decimal size
                ++ (text ", \"mimeType\": \""
                    ++ (mime ++ (text "\", \"crc\": " ++ (decimal crc ++ text "}")))))))

abbrev pub error_text : Text → Text
error_text what = text "{\"error\": \"" ++ (what ++ text "\"}")

abbrev pub info_of : Text → Text → Text → ℕ → Option ℕ → Text × Bool
info_of filename display_name mime size none = (error_text (cannot_open filename), false)
info_of filename display_name mime size (some crc) =
    (info_text filename display_name mime size crc, true)

abbrev pub crc_of : Option Text → Option ℕ
crc_of none = none
crc_of (some content) = get_crc content

abbrev pub sized : Magic → Text → Text → Text → ℕ ⊎ Text → Text × Bool
sized magic filename display_name mime (inl size) =
    info_of filename display_name mime size (crc_of (magic.content filename))
sized magic filename display_name mime (inr what) = (error_text what, false)

abbrev pub typed : Magic → Text → Text → Result → Text × Bool
typed magic filename display_name (value mime) =
    sized magic filename display_name mime (magic.file_size filename)
typed magic filename display_name (throws what) = (error_text what, false)

-- `get_file_info`: what it leaves in `info`, and its result
unfoldable pub get_file_info : Magic → Text → Text → Text × Bool
unfolding get_mime_type get_crc
get_file_info magic filename display_name =
    typed magic filename display_name (get_mime_type magic filename)
