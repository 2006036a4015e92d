-- ===== src/Db/Superblock/Contract.antt =====
-- crates/oxgraph-db/src/wal.rs: which bytes `read_superblock` takes, and those it is given.
use oxgraph.Prelude.{
  ℕ, ◌<◌, ◌^◌, ◌≡◌, ◌↔◌, ap, sym, ◌∙◌, List, [], ◌++◌, take, length, ok, arith, ==_iff, take-append,
  length-append, length-le_bytes, append-nil, le_bytes,
}
use oxgraph.Snapshot.Reader.Table.{bytes_eq_iff}
use oxgraph.Db.Wire.{
  SuperblockRecord, superblock_magic, superblock_bytes, superblock_prefix, superblock_of,
}
use oxgraph.Db.Wire.Codec.{IsSuperblock, length-superblock_prefix, superblock_of-superblock_bytes}
use oxgraph.Db.Wal.{Crc32c}
use oxgraph.Db.Wal.Encode.{IsCrc}
use oxgraph.Db.Superblock.{stamp_superblock, superblock_image, read_superblock}

-- What the field docs of `SuperblockRecord` say of the bytes of a file.
pub record IsPublished (crc : Crc32c) (bytes : List ℕ) : Type 0 where
  pub size : length bytes ≡ 64
  pub magic_right : (superblock_of bytes).magic ≡ superblock_magic
  pub checksum_right : (superblock_of bytes).crc32c ≡ crc.checksum (take 56 bytes)
  pub version_right : (superblock_of bytes).format_version ≡ 1
  pub flags_zero : (superblock_of bytes).flags ≡ 0
  pub pad_zero : (superblock_of bytes).pad ≡ 0

module _ (crc : Crc32c) (bytes : List ℕ) (sb : SuperblockRecord) where
  read_sound :
      read_superblock crc bytes ≡ ok sb → IsPublished crc bytes × (superblock_of bytes ≡ sb)
  unfolding read_superblock
  read_sound e =
      let m = bytes_eq_iff (superblock_of bytes).magic superblock_magic in
      (
        record {
          size = ground arith;
          magic_right = ground (arith, m);
          checksum_right = ground arith;
          version_right = ground arith;
          flags_zero = ground arith;
          pad_zero = ground arith;
        },
        ground arith,
      )

  read_complete :
      IsPublished crc bytes × (superblock_of bytes ≡ sb) → read_superblock crc bytes ≡ ok sb
  unfolding read_superblock
  read_complete (p, e) =
      let m = bytes_eq_iff (superblock_of bytes).magic superblock_magic in
      rw
        (
          (==_iff (length bytes) 64).1 p.size,
          m.1 p.magic_right,
          (==_iff (superblock_of bytes).crc32c (crc.checksum (take 56 bytes))).1 p.checksum_right,
          (==_iff (superblock_of bytes).format_version 1).1 p.version_right,
          (==_iff (superblock_of bytes).flags 0).1 p.flags_zero,
          (==_iff (superblock_of bytes).pad 0).1 p.pad_zero,
        )
        (ap ok e)

  -- `read_superblock` returns a record exactly when the file's bytes are those of a published
  -- superblock: 64 of them, with the magic, the CRC of the first 56, the format version, and zero
  -- flags and padding. The record is then what the bytes say.
  pub read_superblock_iff :
      (read_superblock crc bytes ≡ ok sb) ↔ (IsPublished crc bytes × (superblock_of bytes ≡ sb))
  read_superblock_iff = (read_sound, read_complete)

module _ (crc : Crc32c) (sb : SuperblockRecord) (valid : IsSuperblock sb) where
  -- The CRC lies behind the bytes it is taken over.
  abbrev own_crc : ℕ
  own_crc = crc.checksum (superblock_prefix sb)

  covered : (c : ℕ) → take 56 (superblock_bytes (record sb { crc32c = c })) ≡ superblock_prefix sb
  unfolding superblock_prefix
  covered c =
      take-append 56 (superblock_prefix sb) (le_bytes 4 c ++ le_bytes 4 sb.pad)
        (length-superblock_prefix sb valid)

  stamped : stamp_superblock crc sb ≡ record sb { crc32c = own_crc }
  unfolding stamp_superblock
  stamped = λ i. record sb { crc32c = crc.checksum (covered 0 i) }

  whole : (c : ℕ) → length (superblock_bytes (record sb { crc32c = c })) ≡ 64
  unfolding superblock_prefix
  whole c = omega (
    arith,
    length-append (superblock_prefix sb) (le_bytes 4 c ++ le_bytes 4 sb.pad),
    length-superblock_prefix sb valid,
    length-append (le_bytes 4 c) (le_bytes 4 sb.pad),
    length-le_bytes 4 c,
    length-le_bytes 4 sb.pad,
  )

  read_back :
      (c : ℕ)
      → c < 2 ^ 32
      → superblock_of (superblock_bytes (record sb { crc32c = c })) ≡ record sb { crc32c = c }
  read_back c small =
      let fields : IsSuperblock (record sb { crc32c = c }) = record {
        magic_len = valid.magic_len;
        generation_word = valid.generation_word;
        lsn_word = valid.lsn_word;
        offset_word = valid.offset_word;
        seq_word = valid.seq_word;
        transaction_word = valid.transaction_word;
        version_word = valid.version_word;
        flags_word = valid.flags_word;
        crc_word = small;
        pad_word = valid.pad_word;
      } in
      ap superblock_of (sym (append-nil (superblock_bytes (record sb { crc32c = c }))))
      ∙ superblock_of-superblock_bytes (record sb { crc32c = c }) [] fields

  -- A superblock whose fields are values of their types, with the right magic, version and reserved
  -- words, is read back from the bytes that `write_superblock` publishes for it, with the CRC
  -- stamped in.
  pub read_superblock-superblock_image :
      IsCrc crc
      → sb.magic ≡ superblock_magic
      → sb.format_version ≡ 1
      → sb.flags ≡ 0
      → sb.pad ≡ 0
      → read_superblock crc (superblock_image crc sb) ≡ ok (stamp_superblock crc sb)
  unfolding superblock_image
  read_superblock-superblock_image law magic_right version_right flags_zero pad_zero =
      let out = record sb { crc32c = own_crc } in
      let same = read_back own_crc (law.checksum_word (superblock_prefix sb)) in
      let published : IsPublished crc (superblock_bytes out) = record {
        size = whole own_crc;
        magic_right = ap (λ (s : SuperblockRecord). s.magic) same ∙ magic_right;
        checksum_right =
            ap (λ (s : SuperblockRecord). s.crc32c) same ∙ ap crc.checksum (sym (covered own_crc));
        version_right = ap (λ (s : SuperblockRecord). s.format_version) same ∙ version_right;
        flags_zero = ap (λ (s : SuperblockRecord). s.flags) same ∙ flags_zero;
        pad_zero = ap (λ (s : SuperblockRecord). s.pad) same ∙ pad_zero;
      } in
      rw stamped (read_complete crc (superblock_bytes out) out (published, same))
