-- ===== src/Files/Contents.antt =====
-- `assertFileContentMatchesType`: the first bytes of a file, and the names in an archive.
use bash_builder.Prelude.{
  ℕ, Bool, true, false, not, ◌&&◌, ◌||◌, ◌==◌, List, [], ◌∷◌, Text, codes, Result, throw_if,
  bad_request,
}
use bash_builder.Files.Types.{FileType, pdf, jpeg, png, spreadsheet, document}

-- `startsWith`; a missing byte is `undefined`.
unfoldable pub starts_with : Text → List ℕ → Bool
starts_with bytes [] = true
starts_with [] (v ∷ signature) = false
starts_with (b ∷ bytes) (v ∷ signature) = (b == v) && starts_with bytes signature

-- `containsAscii`
unfoldable pub contains_ascii : Text → Text → Bool
unfolding starts_with
contains_ascii [] value = starts_with [] value
contains_ascii (b ∷ bytes) value = starts_with (b ∷ bytes) value || contains_ascii bytes value

abbrev is_zip : Text → Bool
is_zip bytes = starts_with bytes (0x50 ∷ 0x4b ∷ 0x03 ∷ 0x04 ∷ [])

unfoldable pub matches_type : FileType → Text → Bool
unfolding starts_with contains_ascii
matches_type pdf bytes = starts_with bytes (0x25 ∷ 0x50 ∷ 0x44 ∷ 0x46 ∷ 0x2d ∷ [])
matches_type jpeg bytes = starts_with bytes (0xff ∷ 0xd8 ∷ 0xff ∷ [])
matches_type png bytes =
    starts_with bytes (0x89 ∷ 0x50 ∷ 0x4e ∷ 0x47 ∷ 0x0d ∷ 0x0a ∷ 0x1a ∷ 0x0a ∷ [])
matches_type spreadsheet bytes =
    is_zip bytes
    && contains_ascii bytes (codes "[Content_Types].xml")
    && contains_ascii bytes (codes "xl/")
matches_type document bytes =
    is_zip bytes
    && contains_ascii bytes (codes "[Content_Types].xml")
    && contains_ascii bytes (codes "word/")

-- `assertFileContentMatchesType`
unfoldable pub assert_file_content_matches_type : FileType → Text → Result (Unit {0})
unfolding matches_type
assert_file_content_matches_type type bytes = throw_if (not (matches_type type bytes)) bad_request
