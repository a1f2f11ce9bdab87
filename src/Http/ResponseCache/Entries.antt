-- ===== src/Http/ResponseCache/Entries.antt =====
-- Entries read back from their encoding.
use sekai_master_api.Prelude.{
  ℕ, false, ◌+◌, ◌*◌, ◌<◌, some, ◌++◌, length, length-append, ltb, take-length_append,
  drop-length_append, if◌then◌else◌, ◌≡◌, refl, inl, inr, arith, Bool-cases,
}
use sekai_master_api.Prelude.Text.{Bytes}
use sekai_master_api.Http.ResponseCache.{
  Zstd, Entry, is_large, packed, high_byte, low_byte, short_type, encode_entry, unpacked,
  decode_entry,
}

module _ (zstd : Zstd) where
  uint16-lem : (n : ℕ) → n < 65536 → high_byte zstd n * 256 + low_byte zstd n ≡ n
  uint16-lem n h = omega arith

  short_type-lem :
      (content_type : Bytes)
      → length content_type < 65536
      → short_type zstd content_type ≡ content_type
  short_type-lem content_type h =
      let fits : ltb 65535 (length content_type) ≡ false = ground arith in rw fits refl

  unpacked-packed :
      (body : Bytes)
      → zstd.decompress (zstd.compress body) ≡ some body
      → unpacked zstd (if is_large zstd body then 1 else 0) (packed zstd body) ≡ some body
  unpacked-packed body h = elim (Bool-cases (is_large zstd body)) [
    | inl e ↦ rw e h
    | inr e ↦ rw e refl
  ]

  -- An entry is read back from its encoding: its status and the length of its content type take 16
  -- bits, and zstd gives back its body.
  pub decode_entry-encode :
      (value : Entry)
      → value.status < 65536
      → length value.content_type < 65536
      → zstd.decompress (zstd.compress value.body) ≡ some value.body
      → decode_entry zstd (encode_entry zstd value) ≡ some value
  unfolding encode_entry decode_entry
  decode_entry-encode value s t z =
      let type_length : high_byte zstd (length value.content_type) * 256
            + low_byte zstd (length value.content_type)
          ≡ length value.content_type =
        uint16-lem (length value.content_type) t in
      let inside : ltb (length (value.content_type ++ packed zstd value.body))
            (length value.content_type)
          ≡ false =
        ground (arith, length-append value.content_type (packed zstd value.body)) in
      rw
        (
          short_type-lem value.content_type t,
          type_length,
          inside,
          uint16-lem value.status s,
          take-length_append value.content_type (packed zstd value.body),
          drop-length_append value.content_type (packed zstd value.body),
          unpacked-packed value.body z,
        )
        refl
