-- ===== src/Buffers/Contents.antt =====
-- The contents of the buffers of src/buffer.c: their sizes, and the bytes that a resizing keeps.
use rockchip_vaapi.Base.{
  ℕ, ◌-◌, ◌*◌, ◌/◌, ◌%◌, ◌^◌, ◌≤◌, ◌<◌, ◌≡◌, ◌⊎◌, refl, Bool, true, false, not, ◌||◌, Option, none,
  some, List, [], ◌∷◌, ◌++◌, arith, ltb, ◌==◌, if◌then◌else◌, Bool-cases, inl, inr, length,
  length-append, length-take, length-replicate, take, drop, replicate, get_or, get_or-append,
  get_or-replicate,
}
use native.Mathlib.Nat.{mod-eq_of_lt, mul-div-le, mul-le-mul_left, zero-mul}
use rockchip_vaapi.FrameLayout.{size_max}
use rockchip_vaapi.Nal.ParameterSet.{get_or-take}
use rockchip_vaapi.Buffers.{
  Buffer, BufferType, failed, done, error_allocation_failed, too_many, initial_data,
  rk_create_buffer, resized, is_coded, reset_coded, rk_buffer_set_num_elements,
  rk_buffer_store_coded,
}

-- The bytes of a buffer are as many as it has room for, which is the size of its elements.
pub record IsSized (buffer : Buffer) : Type 0 where
  pub filled : length buffer.contents ≡ buffer.capacity
  pub elements : buffer.capacity ≡ buffer.size * buffer.num_elements
  pub counted :
      (buffer.segment_size ≡ 0)
      ⊎ ((is_coded buffer.buffer_type ≡ true) × (buffer.segment_size ≤ buffer.capacity))
  pub bounded : buffer.capacity ≤ size_max

-- A product that passes the test does not wrap.
pub too_many_lem :
    (size num_elements : ℕ) → too_many size num_elements ≡ false → size * num_elements ≤ size_max
too_many_lem size num_elements e = elim (Bool-cases (size == 0)) [
  | inl empty ↦ let same : size ≡ 0 = ground (arith, empty) in rw (same, zero-mul) (omega arith)
  | inr positive ↦
      let few : num_elements ≤ size_max / size = ground (arith, e, positive) in
      omega (arith, mul-le-mul_left size few, mul-div-le size_max size)
]

-- The bytes up to the smaller capacity are kept, and those behind the old one are 0.
pub record IsResized (buffer next : Buffer) : Type 0 where
  pub kept :
      (i : ℕ)
      → i < buffer.capacity
      → i < next.capacity
      → get_or next.contents i 0 ≡ get_or buffer.contents i 0
  pub cleared : (i : ℕ) → buffer.capacity ≤ i → get_or next.contents i 0 ≡ 0
  pub same_size : next.size ≡ buffer.size
  pub same_type : next.buffer_type ≡ buffer.buffer_type

length-resized :
    (bytes : ℕ) (buffer : Buffer) → IsSized buffer → length (resized bytes buffer) ≡ bytes
length-resized bytes buffer s = omega (
  arith,
  length-append (take bytes buffer.contents) (replicate (bytes - buffer.capacity) 0),
  length-take bytes buffer.contents,
  length-replicate {A = ℕ} (bytes - buffer.capacity) 0,
  s.filled,
)

resized_at :
    (bytes i : ℕ) (buffer : Buffer)
    → get_or (resized bytes buffer) i 0 ≡ (
        if ltb i (length (take bytes buffer.contents))
        then get_or (take bytes buffer.contents) i 0
        else get_or
            (replicate (bytes - buffer.capacity) 0)
            (i - length (take bytes buffer.contents))
            0)
resized_at bytes i buffer =
    get_or-append (take bytes buffer.contents) (replicate (bytes - buffer.capacity) 0) i 0

-- Where the size does not overflow and memory is there, a buffer can be resized; it is then as long as
-- its elements ask for, keeps the bytes that it had up to the smaller length, and is 0 behind them; a coded buffer waits for a
-- frame again.
pub rk_buffer_set_num_elements_lem :
    (num_elements : ℕ) (buffer : Buffer)
    → IsSized buffer
    → too_many buffer.size num_elements ≡ false
    → (next : Buffer) × (rk_buffer_set_num_elements true num_elements buffer ≡ done next)
      × (next.num_elements ≡ num_elements)
      × IsSized next
      × IsResized buffer next
      × (is_coded buffer.buffer_type ≡ true
          → (next.coded_ready ≡ false) × (next.coded_failed ≡ false))
unfolding rk_buffer_set_num_elements
rk_buffer_set_num_elements_lem num_elements buffer s few =
    let le = too_many_lem buffer.size num_elements few in
    let bytes = buffer.size * num_elements % 2 ^ 64 in
    let exact : bytes ≡ buffer.size * num_elements = mod-eq_of_lt (omega (arith, le)) in
    let count = length-take bytes buffer.contents in
    let long = length-resized bytes buffer s in
    let segment : (c : Bool)
        → (is_coded buffer.buffer_type ≡ c)
        → (if c then 0 else buffer.segment_size) ≡ 0 =
      λ c. λ e. elim s.counted [
        | inl none_yet ↦ ground (arith, none_yet)
        | inr (coded, le) ↦ ground (arith, coded, e)
      ] in
    (
      reset_coded (record buffer {
        contents = resized bytes buffer;
        capacity = bytes;
        num_elements = num_elements;
      }),
      rw few refl,
      refl,
      record {
        filled = long;
        elements = exact;
        counted = inl (segment (is_coded buffer.buffer_type) refl);
        bounded = omega (arith, exact, le);
      },
      record {
        kept = λ i lt lt'. ground (
          arith,
          resized_at bytes i buffer,
          get_or-take bytes i buffer.contents lt',
          count,
          s.filled,
          lt,
          lt',
        );
        cleared = λ i ge. ground (
          arith,
          resized_at bytes i buffer,
          count,
          s.filled,
          ge,
          get_or-replicate {A = ℕ} (bytes - buffer.capacity)
              (i - length (take bytes buffer.contents)) 0,
        );
        same_size = refl;
        same_type = refl;
      },
      λ coded. rw coded (refl, refl),
    )

pub rk_buffer_set_num_elements_refuses :
    (memory : Bool) (num_elements : ℕ) (buffer : Buffer)
    → (too_many buffer.size num_elements || not memory) ≡ true
    → rk_buffer_set_num_elements memory num_elements buffer ≡ failed error_allocation_failed
unfolding rk_buffer_set_num_elements
rk_buffer_set_num_elements_refuses memory num_elements buffer e = ground (arith, e)

-- The bytes that the client gives, if any, are at least as many as the buffer has.
abbrev pub GivesEnough : ℕ → Option (List ℕ) → Type 0
GivesEnough bytes none = Unit
GivesEnough bytes (some client) = bytes ≤ length client

initial_data-length :
    (bytes : ℕ) (client : Option (List ℕ))
    → GivesEnough bytes client
    → length (initial_data bytes client) ≡ bytes
initial_data-length bytes none g = length-replicate bytes 0
initial_data-length bytes (some client) g = omega (arith, length-take bytes client, g)

-- Where the size does not overflow, memory is there and the client gives enough bytes, a buffer is
-- created, with the bytes of the client or zeros, that is as long as its elements ask for.
pub rk_create_buffer_lem :
    (buffer_type : BufferType) (size num_elements : ℕ) (client : Option (List ℕ))
    → too_many size num_elements ≡ false
    → GivesEnough (size * num_elements) client
    → (buffer : Buffer) × (rk_create_buffer true buffer_type size num_elements client ≡ done buffer)
      × IsSized buffer
      × (buffer.contents ≡ initial_data (size * num_elements) client)
unfolding rk_create_buffer
rk_create_buffer_lem buffer_type size num_elements client few enough =
    let le = too_many_lem size num_elements few in
    let exact : size * num_elements % 2 ^ 64 ≡ size * num_elements =
      mod-eq_of_lt (omega (arith, le)) in
    (
      record {
        buffer_type = buffer_type;
        size = size;
        num_elements = num_elements;
        capacity = size * num_elements;
        contents = initial_data (size * num_elements) client;
        segment_size = 0;
        segment_status = 0;
        coded_ready = false;
        coded_failed = false;
      },
      rw (few, exact) refl,
      record {
        filled = initial_data-length (size * num_elements) client enough;
        elements = refl;
        counted = inl refl;
        bounded = le;
      },
      refl,
    )

length-store :
    (bytes contents : List ℕ)
    → length bytes ≤ length contents
    → length (bytes ++ drop (length bytes) contents) ≡ length contents
length-store [] contents le = refl
length-store (b ∷ bytes) [] le = absurd (omega arith)
length-store (b ∷ bytes) (c ∷ contents) le =
    omega (arith, length-store bytes contents (omega arith))

-- A store keeps the sizes of a coded buffer, whether it fits or not.
pub rk_buffer_store_coded-IsSized :
    (frame_size_overflow : ℕ) (bytes : List ℕ) (status : ℕ) (buffer : Buffer)
    → IsSized buffer
    → IsSized (rk_buffer_store_coded frame_size_overflow bytes status buffer).0
unfolding rk_buffer_store_coded
rk_buffer_store_coded-IsSized frame_size_overflow bytes status buffer s =
    elim (Bool-cases (is_coded buffer.buffer_type)) [
      | inr other ↦ rw other s
      | inl coded ↦ elim (Bool-cases (ltb buffer.capacity (length bytes))) [
        | inl over ↦
            rw (coded, over)
              (record {
                filled = s.filled;
                elements = s.elements;
                counted = inl refl;
                bounded = s.bounded;
              })
        | inr fits ↦
            let le : length bytes ≤ buffer.capacity = ground (arith, fits) in
            rw (coded, fits)
              (record {
                filled = omega (
                  arith,
                  length-store bytes buffer.contents (omega (arith, le, s.filled)),
                  s.filled,
                );
                elements = s.elements;
                counted = inr (coded, omega (arith, le));
                bounded = s.bounded;
              })
      ]
    ]
