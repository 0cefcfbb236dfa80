-- ===== src/Engine/Buffer.antt =====
-- core/byte_buffer.hpp: a growable array of bytes. The block is the list of all its bytes, so many as
-- `capacity_`; sizes have 32 bits, as on the device, and `none` is an access outside the block.
pub mod Contents
pub mod Shift
use kindle_myts.Base.{
  ℕ, ◌+◌, ◌-◌, ◌*◌, ◌%◌, ◌^◌, Bool, true, false, List, [], ◌∷◌, Option, none, some, ◌>>=◌, ltb, leb,
  ◌==◌, if◌then◌else◌, length, take, copy, move,
}
use kindle_myts.Dynstring.{Allocator}

pub record ByteBuffer : Type 0 where
  pub bytes : List ℕ
  pub size : ℕ

abbrev pub empty_buffer : ByteBuffer
empty_buffer = record { bytes = []; size = 0 }

abbrev pub capacity : ByteBuffer → ℕ
capacity b = length b.bytes

-- `std::move` out of a buffer: what the new one has, and what is left
unfoldable pub move_out : ByteBuffer → ByteBuffer × ByteBuffer
move_out other = (other, empty_buffer)

unfoldable pub clear : ByteBuffer → ByteBuffer
clear b = record b { size = 0 }

-- `view`
unfoldable pub contents : ByteBuffer → List ℕ
contents b = take b.size b.bytes

unfoldable pub alloc_cap : ℕ → ByteBuffer → ℕ
alloc_cap new_cap b =
    let doubled = if capacity b == 0 then 64 else capacity b * 2 % 2 ^ 32 in
    if ltb doubled new_cap then new_cap else doubled

-- what becomes of the answer of `realloc`
unfoldable pub resized : Option (List ℕ) → ByteBuffer → Bool × ByteBuffer
resized none b = (false, b)
resized (some bytes) b = (true, record b { bytes = bytes })

-- the bytes copied, where there is room for them
unfoldable pub put_behind : List ℕ → Bool × ByteBuffer → Option (Bool × ByteBuffer)
put_behind input (false, c) = some (false, c)
put_behind input (true, c) = do
  bytes ← copy c.bytes c.size input 0 (length input)
  some (true, record { bytes = bytes; size = (c.size + length input) % 2 ^ 32 })

module _ (m : Allocator) where
  unfoldable pub reserve : ℕ → ByteBuffer → Bool × ByteBuffer
  unfolding alloc_cap resized
  reserve new_cap b =
      if leb new_cap (capacity b)
      then (true, b)
      else resized (m.realloc b.bytes (alloc_cap new_cap b)) b

  unfoldable pub append : List ℕ → ByteBuffer → Option (Bool × ByteBuffer)
  unfolding reserve put_behind
  append input b =
      if length input == 0
      then some (true, b)
      else put_behind input (reserve ((b.size + length input) % 2 ^ 32) b)

unfoldable pub shift_prefix : ℕ → ByteBuffer → Option (Bool × ByteBuffer)
shift_prefix n b =
    if ltb b.size n
    then some (false, b)
    else if n == 0
    then some (true, b)
    else if ltb 0 (b.size - n)
    then (move b.bytes 0 n (b.size - n) >>= λ bytes.
        some (true, record { bytes = bytes; size = b.size - n }))
    else some (true, record b { size = b.size - n })
