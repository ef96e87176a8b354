-- ===== src/Buffers/Coded.antt =====
-- A coded buffer of src/buffer.c as a cell that waits for a frame, holds one, or has lost it: the
-- calls of the encoder (src/mpp_enc.c) and of the client refine the steps of the cell.
use rockchip_vaapi.Base.{
  ℕ, ◌*◌, ◌%◌, ◌^◌, ◌<◌, ◌≡◌, refl, ap, ◌∙◌, Bool, true, false, not, ◌||◌, Option, none, some, List,
  [], ◌∷◌, ◌++◌, arith, ltb, if◌then◌else◌, Bool-cases, inl, inr, All, length, take, drop,
}
use native.Mathlib.Nat.{mod-eq_of_lt}
use rockchip_vaapi.Buffers.{
  Buffer, Status, error_encoding, error_timedout, Result, failed, done, too_many, is_coded,
  rk_buffer_set_num_elements, rk_buffer_store_coded, rk_map_buffer, coded_segment, begin_encode,
  fail_encode, rk_sync_buffer,
}
use rockchip_vaapi.Buffers.Contents.{
  IsSized, rk_buffer_set_num_elements_lem, rk_buffer_set_num_elements_refuses,
  rk_buffer_store_coded-IsSized,
}

-- The specification: the room of a cell, and what it holds.
pub data Held : Type 0 where
  waiting : Held
  frame : List ℕ → ℕ → Held
  lost : Held

pub record Cell : Type 0 where
  pub room : ℕ
  pub held : Held

-- The calls: a packet is stored, the client changes the number of elements, an encode starts or fails.
pub data Call : Type 0 where
  store : List ℕ → ℕ → Call
  resize : Bool → ℕ → Call
  begin : Call
  fail : Call

-- The steps of the cell, for elements of some size.
abbrev pub cell_step : ℕ → Call → Cell → Cell
cell_step size (store bytes status) cell = record cell {
  held = if ltb cell.room (length bytes) then lost else frame bytes status;
}
cell_step size (resize memory num_elements) cell =
    if too_many size num_elements || not memory
    then cell
    else record { room = size * num_elements; held = waiting }
cell_step size begin cell = record cell { held = waiting }
cell_step size fail cell = record cell { held = lost }

abbrev pub cell_run : ℕ → List Call → Cell → Cell
cell_run size [] cell = cell
cell_run size (call ∷ calls) cell = cell_run size calls (cell_step size call cell)

-- What the client sees of a cell: the status of a synchronization, and the frame through a mapping.
abbrev pub cell_sync : Held → Option Status
cell_sync waiting = some error_timedout
cell_sync (frame bytes status) = none
cell_sync lost = some error_encoding

abbrev pub Maps : Held → Buffer → Type 0
Maps (frame bytes status) buffer = rk_map_buffer buffer ≡ coded_segment bytes status
Maps _ buffer = Unit

-- The steps of the code.
abbrev pub after : Buffer → Result Buffer → Buffer
after buffer (failed status) = buffer
after buffer (done next) = next

abbrev pub buffer_step : ℕ → Call → Buffer → Buffer
buffer_step overflow (store bytes status) buffer =
    (rk_buffer_store_coded overflow bytes status buffer).0
buffer_step overflow (resize memory num_elements) buffer =
    after buffer (rk_buffer_set_num_elements memory num_elements buffer)
buffer_step overflow begin buffer = begin_encode buffer
buffer_step overflow fail buffer = fail_encode buffer

abbrev pub buffer_run : ℕ → List Call → Buffer → Buffer
buffer_run overflow [] buffer = buffer
buffer_run overflow (call ∷ calls) buffer =
    buffer_run overflow calls (buffer_step overflow call buffer)

-- The relation: a coded buffer with the room of the cell, whose flags and bytes tell what it holds.
abbrev pub Holds : Held → Buffer → Type 0
Holds waiting buffer = (buffer.coded_ready ≡ false) × (buffer.coded_failed ≡ false)
Holds (frame bytes status) buffer =
    (buffer.coded_ready ≡ true)
    × (buffer.coded_failed ≡ false)
    × (take buffer.segment_size buffer.contents ≡ bytes)
    × (buffer.segment_status ≡ status)
Holds lost buffer = buffer.coded_failed ≡ true

pub record Refines (size : ℕ) (cell : Cell) (buffer : Buffer) : Type 0 where
  pub coded : is_coded buffer.buffer_type ≡ true
  pub sized : IsSized buffer
  pub same_size : buffer.size ≡ size
  pub same_room : buffer.capacity ≡ cell.room
  pub holds : Holds cell.held buffer

-- Packets have fewer than 2 ^ 32 bytes.
abbrev pub IsShort : Call → Type 0
IsShort (store bytes status) = length bytes < 2 ^ 32
IsShort _ = Unit

take-append : (bytes rest : List ℕ) → take (length bytes) (bytes ++ rest) ≡ bytes
take-append [] rest = refl
take-append (b ∷ bytes) rest = ap (◌∷◌ b) (take-append bytes rest)

store-Refines :
    (size overflow : ℕ) (bytes : List ℕ) (status : ℕ) (cell : Cell) (buffer : Buffer)
    → length bytes < 2 ^ 32
    → Refines size cell buffer
    → Refines size
        (cell_step size (store bytes status) cell)
        (rk_buffer_store_coded overflow bytes status buffer).0
unfolding rk_buffer_store_coded
store-Refines size overflow bytes status cell buffer short r =
    let sized = rk_buffer_store_coded-IsSized overflow bytes status buffer r.sized in
    let low : length bytes % 2 ^ 32 ≡ length bytes = mod-eq_of_lt short in
    elim (Bool-cases (ltb cell.room (length bytes))) [
      | inl over ↦
          let over' : ltb buffer.capacity (length bytes) ≡ true = rw r.same_room over in
          rw (over, r.coded, over')
            (record {
              coded = r.coded;
              sized = rw (r.coded, over') at sized;
              same_size = r.same_size;
              same_room = r.same_room;
              holds = refl;
            })
      | inr fits ↦
          let fits' : ltb buffer.capacity (length bytes) ≡ false = rw r.same_room fits in
          rw (fits, r.coded, fits')
            (record {
              coded = r.coded;
              sized = rw (r.coded, fits') at sized;
              same_size = r.same_size;
              same_room = r.same_room;
              holds = (
                refl,
                refl,
                rw low (take-append bytes (drop (length bytes) buffer.contents)),
                refl,
              );
            })
    ]

resize-Refines :
    (size overflow : ℕ) (memory : Bool) (num_elements : ℕ) (cell : Cell) (buffer : Buffer)
    → Refines size cell buffer
    → Refines size
        (cell_step size (resize memory num_elements) cell)
        (buffer_step overflow (resize memory num_elements) buffer)
resize-Refines size overflow memory num_elements cell buffer r =
    elim (Bool-cases (too_many size num_elements || not memory)) [
      | inl refused ↦
          rw
            (
              refused,
              rk_buffer_set_num_elements_refuses memory num_elements buffer
                  (rw r.same_size refused),
            )
            r
      | inr granted ↦
          let few : too_many size num_elements ≡ false = ground (arith, granted) in
          let given : memory ≡ true = ground (arith, granted) in
          let (next, e, same, sized, is, held) =
            rk_buffer_set_num_elements_lem num_elements buffer r.sized (rw r.same_size few) in
          rw (granted, given, e)
            (record {
              coded = rw is.same_type r.coded;
              sized = sized;
              same_size = is.same_size ∙ r.same_size;
              same_room = sized.elements ∙ rw (same, is.same_size, r.same_size) refl;
              holds = held r.coded;
            })
    ]

-- Each call on a coded buffer is the step of its cell.
step-Refines :
    (size overflow : ℕ) (call : Call) (cell : Cell) (buffer : Buffer)
    → IsShort call
    → Refines size cell buffer
    → Refines size (cell_step size call cell) (buffer_step overflow call buffer)
step-Refines size overflow (store bytes status) cell buffer short r =
    store-Refines size overflow bytes status cell buffer short r
step-Refines size overflow (resize memory num_elements) cell buffer short r =
    resize-Refines size overflow memory num_elements cell buffer r
step-Refines size overflow begin cell buffer short r = record {
  coded = r.coded;
  sized = record {
    filled = r.sized.filled;
    elements = r.sized.elements;
    counted = r.sized.counted;
    bounded = r.sized.bounded;
  };
  same_size = r.same_size;
  same_room = r.same_room;
  holds = (refl, refl);
}
step-Refines size overflow fail cell buffer short r = record {
  coded = r.coded;
  sized = record {
    filled = r.sized.filled;
    elements = r.sized.elements;
    counted = r.sized.counted;
    bounded = r.sized.bounded;
  };
  same_size = r.same_size;
  same_room = r.same_room;
  holds = refl;
}

-- What the client sees of a buffer that refines a cell.
shows :
    (size : ℕ) (cell : Cell) (buffer : Buffer)
    → Refines size cell buffer
    → (rk_sync_buffer buffer ≡ cell_sync cell.held) × Maps cell.held buffer
unfolding rk_sync_buffer rk_map_buffer
shows size cell buffer r = seen cell.held r.holds
  where
    seen :
        (held : Held)
        → Holds held buffer
        → (rk_sync_buffer buffer ≡ cell_sync held) × Maps held buffer
    seen waiting (ready, fine) = (rw (r.coded, fine, ready) refl, tt)
    seen (frame bytes status) (ready, fine, taken, stated) =
        (rw (r.coded, fine, ready) refl, rw (r.coded, taken, stated) refl)
    seen lost broken = (rw (r.coded, broken) refl, tt)

-- Any sequence of calls on a coded buffer, with packets of fewer than 2 ^ 32 bytes, is the same sequence
-- of steps of a cell that waits for a frame, holds one or has lost it: where the buffer refines the
-- cell before, it does so after the calls, and a synchronization gives the status of the cell, and a
-- mapping of a cell with a frame exactly the bytes and the status of that frame.
pub buffer_run-Refines :
    (size overflow : ℕ) (calls : List Call) (cell : Cell) (buffer : Buffer)
    → All IsShort calls
    → Refines size cell buffer
    → Refines size (cell_run size calls cell) (buffer_run overflow calls buffer)
      × (rk_sync_buffer (buffer_run overflow calls buffer)
          ≡ cell_sync (cell_run size calls cell).held)
      × Maps (cell_run size calls cell).held (buffer_run overflow calls buffer)
buffer_run-Refines size overflow [] cell buffer short r =
    let (sync, maps) = shows size cell buffer r in (r, sync, maps)
buffer_run-Refines size overflow (call ∷ calls) cell buffer (h, short) r =
    buffer_run-Refines size overflow calls (cell_step size call cell)
      (buffer_step overflow call buffer) short (step-Refines size overflow call cell buffer h r)
