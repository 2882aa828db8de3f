-- ===== src/Walparser/Block.antt =====
-- xlog_record_block.go, xlog_record_block_header.go, xlog_record_block_image_header.go, and the
-- readers of these headers in read_xlog_record.go.
use Prim.Native.Nat.{bit_and}
use extract.Common.{
  ℕ, ◌+◌, ◌-◌, ◌%◌, ◌^◌, leb, ◌==◌, if◌then◌else◌, Bool, true, false, ◌&&◌, ◌||◌, not, Option, none,
  some,
}
use extract.Walparser.Readers.{
  invalid_record_block_id, out_of_order_block_id, no_prev_rel_file_node,
  inconsistent_block_data_state, inconsistent_block_image_hole_state,
  inconsistent_block_image_length, Reader, ShrinkableReader, shrinkable_reader, M, ◌>>=◌, ◌>>◌,
  pure, fail, require, parse_field, shrink,
}
use extract.Walparser.Location.{RelFileNode, BlockLocation}

abbrev pub block_size : ℕ
block_size = 8192

abbrev pub has_bit : ℕ → ℕ → Bool
has_bit flags mask = not (bit_and flags mask == 0)

pub record XLogRecordBlockImageHeader : Type 0 where
  pub image_length : ℕ
  pub hole_offset : ℕ
  pub hole_length : ℕ
  pub info : ℕ

unfoldable pub has_hole : XLogRecordBlockImageHeader → Bool
has_hole h = has_bit h.info 0x01

unfoldable pub is_compressed : XLogRecordBlockImageHeader → Bool
is_compressed h = has_bit h.info 0x02

unfoldable pub hole_state_is_consistent : XLogRecordBlockImageHeader → Bool
hole_state_is_consistent h = not (
    has_hole h && (h.hole_offset == 0 || (h.hole_length == 0 || h.image_length == block_size))
    || not (has_hole h) && (not (h.hole_offset == 0) || not (h.hole_length == 0)))

unfoldable pub length_is_consistent : XLogRecordBlockImageHeader → Bool
length_is_consistent h = not (
    is_compressed h && h.image_length == block_size
    || not (has_hole h) && (not (is_compressed h) && not (h.image_length == block_size)))

pub record XLogRecordBlockHeader : Type 0 where
  pub block_id : ℕ
  pub fork_flags : ℕ
  pub data_length : ℕ
  pub image_header : XLogRecordBlockImageHeader
  pub block_location : BlockLocation

unfoldable pub has_image : ℕ → Bool
has_image fork_flags = has_bit fork_flags 0x10

unfoldable pub has_data : ℕ → Bool
has_data fork_flags = has_bit fork_flags 0x20

unfoldable pub has_same_rel : ℕ → Bool
has_same_rel fork_flags = has_bit fork_flags 0x80

unfoldable pub data_state_is_consistent : ℕ → ℕ → Bool
data_state_is_consistent fork_flags data_length =
    not (
      has_data fork_flags && data_length == 0
      || not (has_data fork_flags) && not (data_length == 0))

-- The length of the hole is read only of a compressed image that has one; of an uncompressed image
-- it is what is missing to a whole block, a uint16.
unfoldable pub read_hole_length :
    {R : Type 0} ⦃i : Reader R⦄ → XLogRecordBlockImageHeader → M R XLogRecordBlockImageHeader
read_hole_length h =
    if is_compressed h
    then (if has_hole h
        then (do hole_length ← parse_field 2; pure (record h { hole_length = hole_length }))
        else pure h)
    else pure (record h { hole_length = (block_size + 2 ^ 16 - h.image_length) % 2 ^ 16 })

unfoldable pub read_image_header : {R : Type 0} ⦃i : Reader R⦄ → M R XLogRecordBlockImageHeader
read_image_header = do
  image_length ← parse_field 2
  hole_offset ← parse_field 2
  info ← parse_field 1
  h ← read_hole_length (record {
    image_length = image_length;
    hole_offset = hole_offset;
    hole_length = 0;
    info = info;
  })
  require (hole_state_is_consistent h) inconsistent_block_image_hole_state
  require (length_is_consistent h) inconsistent_block_image_length
  pure h

unfoldable pub read_rel_file_node : {R : Type 0} ⦃i : Reader R⦄ → M R RelFileNode
read_rel_file_node = do
  spc_node ← parse_field 4
  db_node ← parse_field 4
  rel_node ← parse_field 4
  pure (record { spc_node = spc_node; db_node = db_node; rel_node = rel_node })

unfoldable pub same_or_read :
    {R : Type 0} ⦃i : Reader R⦄ → Bool → Option RelFileNode → M R RelFileNode
same_or_read false last = read_rel_file_node
same_or_read true none = fail no_prev_rel_file_node
same_or_read true (some node) = pure node

unfoldable pub read_block_location :
    {R : Type 0} ⦃i : Reader R⦄ → Bool → Option RelFileNode → M R BlockLocation
read_block_location block_has_same_rel last = do
  node ← same_or_read block_has_same_rel last
  block_no ← parse_field 4
  pure (record { relation_file_node = node; block_no = block_no })

abbrev pub no_image : XLogRecordBlockImageHeader
no_image = record { image_length = 0; hole_offset = 0; hole_length = 0; info = 0 }

-- The image header, whose image's bytes are then set aside; the zero value where there is no image.
unfoldable pub read_image_part :
    {R : Type 0} ⦃i : Reader R⦄ → Bool → M (ShrinkableReader R) XLogRecordBlockImageHeader
read_image_part false = pure no_image
read_image_part true = do h ← read_image_header; shrink h.image_length; pure h

-- `next_block_id` is the source's maxReadBlockID + 1: the least id that may come next.
unfoldable pub read_xlog_record_block_header :
    {R : Type 0} ⦃i : Reader R⦄
    → Option RelFileNode
    → ℕ
    → ℕ
    → M (ShrinkableReader R) XLogRecordBlockHeader
read_xlog_record_block_header last block_id next_block_id = do
  require (leb block_id 32) invalid_record_block_id
  require (leb next_block_id block_id) out_of_order_block_id
  fork_flags ← parse_field 1
  data_length ← parse_field 2
  require (data_state_is_consistent fork_flags data_length) inconsistent_block_data_state
  shrink data_length
  image_header ← read_image_part (has_image fork_flags)
  location ← read_block_location (has_same_rel fork_flags) last
  pure (record {
    block_id = block_id;
    fork_flags = fork_flags;
    data_length = data_length;
    image_header = image_header;
    block_location = location;
  })
