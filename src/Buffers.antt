-- ===== src/Buffers.antt =====
-- src/buffer.c: VA buffers. A call gives the changed buffer or a status; a call that fails leaves the
-- buffer as it was, where nothing else is said. `malloc`, `calloc` and `realloc` are Boolean arguments:
-- whether they give memory. The list `contents` is the bytes that are set of the allocation; the one byte
-- that is allocated for none is not in it.
pub mod Contents
pub mod Coded
pub mod Derived
mod Examples
use rockchip_vaapi.Base.{
  ℕ, zero, suc, ◌+◌, ◌-◌, ◌*◌, ◌/◌, ◌%◌, ◌^◌, Bool, true, false, not, ◌&&◌, ◌||◌, Option, none,
  some, List, [], ◌∷◌, ◌++◌, ltb, leb, ◌==◌, if◌then◌else◌, length, take, drop, replicate,
}
use rockchip_vaapi.FrameLayout.{size_max}

-- `VAStatus`, as far as src/buffer.c gives it, and a status or a value.
pub data Status : Type 0 where
  error_allocation_failed error_invalid_buffer error_not_enough_buffer error_operation_failed :
      Status
  error_invalid_parameter error_unsupported_rt_format error_encoding error_timedout : Status
  error_invalid_surface error_invalid_image error_unsupported_memory_type : Status

pub data Result {ℓ} (A : Type ℓ) : Type ℓ where
  failed : Status → Result A
  done : A → Result A

-- `VABufferType`, with the types that the code tells apart.
pub data BufferType : Type 0 where
  enc_coded : BufferType
  image_type : BufferType
  other_type : ℕ → BufferType

abbrev pub is_coded : BufferType → Bool
is_coded enc_coded = true
is_coded _ = false

-- `RKBuffer` without the fields of a derived image. `coded_segment.buf` is `contents`.
pub record Buffer : Type 0 where
  pub buffer_type : BufferType
  pub size : ℕ
  pub num_elements : ℕ
  pub capacity : ℕ
  pub contents : List ℕ
  pub segment_size : ℕ
  pub segment_status : ℕ
  pub coded_ready : Bool
  pub coded_failed : Bool

-- `size != 0 && num_elements > SIZE_MAX / size`.
abbrev pub too_many : ℕ → ℕ → Bool
too_many size num_elements = not (size == 0) && ltb (size_max / size) num_elements

-- The bytes of the client, who gives as many as the buffer has, or zeros.
abbrev pub initial_data : ℕ → Option (List ℕ) → List ℕ
initial_data bytes none = replicate bytes 0
initial_data bytes (some client) = take bytes client

-- `rk_CreateBuffer` up to the insertion in the heap.
unfoldable pub rk_create_buffer : Bool → BufferType → ℕ → ℕ → Option (List ℕ) → Result Buffer
rk_create_buffer memory buffer_type size num_elements client =
    if too_many size num_elements
    then failed error_allocation_failed
    else if not memory
    then failed error_allocation_failed
    else let bytes = size * num_elements % 2 ^ 64 in
      done (record {
        buffer_type = buffer_type;
        size = size;
        num_elements = num_elements;
        capacity = bytes;
        contents = initial_data bytes client;
        segment_size = 0;
        segment_status = 0;
        coded_ready = false;
        coded_failed = false;
      })

-- `realloc`, and the zeros behind the bytes that were there.
abbrev pub resized : ℕ → Buffer → List ℕ
resized bytes buffer = take bytes buffer.contents ++ replicate (bytes - buffer.capacity) 0

abbrev pub reset_coded : Buffer → Buffer
reset_coded buffer =
    let coded = is_coded buffer.buffer_type in
    record buffer {
      segment_size = if coded then 0 else buffer.segment_size;
      coded_ready = if coded then false else buffer.coded_ready;
      coded_failed = if coded then false else buffer.coded_failed;
    }

unfoldable pub rk_buffer_set_num_elements : Bool → ℕ → Buffer → Result Buffer
rk_buffer_set_num_elements memory num_elements buffer =
    if too_many buffer.size num_elements
    then failed error_allocation_failed
    else if not memory
    then failed error_allocation_failed
    else let bytes = buffer.size * num_elements % 2 ^ 64 in
      done (
        reset_coded (record buffer {
          contents = resized bytes buffer;
          capacity = bytes;
          num_elements = num_elements;
        }))

-- The buffer after the call, and the status where it is an error. VA_CODED_BUF_STATUS_FRAME_SIZE_OVERFLOW
-- is an argument.
unfoldable pub rk_buffer_store_coded : ℕ → List ℕ → ℕ → Buffer → Buffer × Option Status
rk_buffer_store_coded frame_size_overflow bytes status buffer =
    if not (is_coded buffer.buffer_type)
    then (buffer, some error_invalid_buffer)
    else if ltb buffer.capacity (length bytes)
    then (
      record buffer {
        segment_size = 0;
        segment_status = frame_size_overflow;
        coded_ready = true;
        coded_failed = true;
      },
      some error_not_enough_buffer,
    )
    else (
      record buffer {
        contents = bytes ++ drop (length bytes) buffer.contents;
        segment_size = length bytes % 2 ^ 32;
        segment_status = status;
        coded_ready = true;
        coded_failed = false;
      },
      none,
    )

-- What the client reads through the pointer of `rk_MapBuffer`: the coded segment with the bytes that it
-- counts, or all bytes.
pub data Mapped : Type 0 where
  coded_segment : List ℕ → ℕ → Mapped
  plain : List ℕ → Mapped

unfoldable pub rk_map_buffer : Buffer → Mapped
rk_map_buffer buffer =
    if is_coded buffer.buffer_type
    then coded_segment (take buffer.segment_size buffer.contents) buffer.segment_status
    else plain buffer.contents

-- `rk_CreateBuffer2`: one element of `stride * height` bytes, in 32 bits.
abbrev pub stride_of : ℕ → ℕ
stride_of width = (width + 15) % 2 ^ 32 / 16 * 16

unfoldable pub rk_create_buffer2 : Bool → BufferType → ℕ → ℕ → Result Buffer
rk_create_buffer2 memory buffer_type width height =
    rk_create_buffer memory buffer_type (stride_of width * height % 2 ^ 32) 1 none

-- The start of an encode in src/mpp_enc.c, and its end without a packet.
abbrev pub begin_encode : Buffer → Buffer
begin_encode buffer = record buffer { coded_ready = false; coded_failed = false }

abbrev pub fail_encode : Buffer → Buffer
fail_encode buffer = record buffer { coded_ready = true; coded_failed = true }

-- `rk_SyncBuffer` of src/rockchip_drv_video.c; `none` is success.
unfoldable pub rk_sync_buffer : Buffer → Option Status
rk_sync_buffer buffer =
    if not (is_coded buffer.buffer_type)
    then none
    else if buffer.coded_failed
    then some error_encoding
    else if not buffer.coded_ready
    then some error_timedout
    else none
