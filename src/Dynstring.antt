-- ===== src/Dynstring.antt =====
-- dynstring.c: dynamic strings. A handle is `Option Dynstr`, NULL being `none`; an access outside the
-- block is `none` of the result. The allocator and `vsnprintf` are parameters.
pub mod Grow
pub mod Heap
pub mod Contents
pub mod Cut
pub mod Print
mod Tests
pub use kindle_myts.Base.Int.{ℤ, pos, negsuc}
use kindle_myts.Base.{
  ℕ, zero, suc, ◌+◌, ◌-◌, ◌*◌, Bool, ◌&&◌, List, [], Option, none, some, ◌>>=◌, ltb, leb, ◌==◌,
  if◌then◌else◌, take, drop, replicate, move, copy, store,
}

-- The header and the buffer, with all bytes of the block, and for a reference the memory that its
-- pointer is to. That pointer is kept in `ref` and not in the bytes of the buffer.
pub record Dynstr : Type 0 where
  pub len : ℕ
  pub used : ℕ
  pub str : List ℕ
  pub ref : List ℕ

-- `calloc` and `realloc`, on what stands behind the header; sizes are without it.
pub record Allocator : Type 0 where
  pub calloc : ℕ → Bool
  pub realloc : List ℕ → ℕ → Option (List ℕ)

-- a result of type `int`: not negative, or negative, which reports an error
pub data Code : Type 0 where
  value : ℕ → Code
  error : Code

abbrev pub start_size : ℕ
start_size = 48

abbrev pub ds_readonly : Dynstr → Bool
ds_readonly b = b.len == 0 && ltb 0 b.used

-- The memory at the pointer returned; "" is empty.
unfoldable pub ds_data : Option Dynstr → List ℕ
ds_data none = []
ds_data (some b) = if ltb 0 b.len then b.str else if b.used == 0 then [] else b.ref

unfoldable pub ds_len : Option Dynstr → ℕ
ds_len none = 0
ds_len (some b) = b.used

-- What a user reads: `ds_len` bytes at `ds_data`.
unfoldable pub contents : Option Dynstr → List ℕ
unfolding ds_data ds_len
contents s = take (ds_len s) (ds_data s)

unfoldable pub ds_create : Allocator → ℕ → Option Dynstr
ds_create m n =
    if m.calloc n then some (record { len = n; used = 0; str = replicate n 0; ref = [] }) else none

-- The pointer is written into a block that may be NULL: a fault.
unfoldable pub ds_ref : Allocator → List ℕ → ℕ → Option Dynstr
unfolding ds_create
ds_ref m p n = ds_create m 8 >>= λ d. some (record d { len = 0; used = n; ref = p })

unfoldable pub ds_reset : Option Dynstr → Option (Option Dynstr)
ds_reset none = some none
ds_reset (some b) = do
  str ← (if b.len == 0 then some b.str else store b.str 0 0)
  some (some (record b { used = 0; str = str }))

-- `make it slightly larger than requested`
abbrev pub larger : ℕ → ℕ
larger n = if ltb n 1000 then n + n else n + 1000

-- `none` is -1, with the string unchanged.
unfoldable pub make_space : Allocator → Dynstr → ℕ → Option Dynstr
make_space m b new_len =
    let grown = (do
      str ← m.realloc b.str (larger new_len)
      some (record b { len = larger new_len; str = str })) in
    if ds_readonly b then none else if leb new_len b.len then some b else grown

-- `if (need > len) if (make_space(buf, need)) ...`
unfoldable pub ensure : Allocator → Dynstr → ℕ → Option Dynstr
unfolding make_space
ensure m b need = if ltb b.len need then make_space m b need else some b

-- `if (d) bcopy(d, str + used, len);`
unfoldable pub put_bytes : Option (List ℕ) → Dynstr → ℕ → Option (List ℕ)
put_bytes none b n = some b.str
put_bytes (some d) b n = copy b.str b.used d 0 n

-- The end of `ds_append`, behind the call of `dynstr_make_space`; `b` is the string before it.
unfoldable pub append_end :
    Dynstr → Option (List ℕ) → ℤ → Option Dynstr → Option (Code × Option Dynstr)
unfolding put_bytes
append_end b d n none = some (error, some b)
append_end b d (pos n) (some c) = do
  str ← put_bytes d c n
  str' ← store str (c.used + n) 0
  some (value 0, some (record c { used = c.used + n; str = str' }))
append_end b d (negsuc n) (some c) = do
  str ← store c.str (suc n) 0
  some (value 0, some (record c { used = suc n; str = str }))

-- `need`
unfoldable pub needed : Dynstr → ℤ → ℕ
needed b (pos n) = b.used + n + 1
needed b (negsuc n) = suc n + 1

unfoldable pub append_to :
    Allocator → Option Dynstr → Option (List ℕ) → ℤ → Option (Code × Option Dynstr)
unfolding append_end needed
append_to m none d n = some (error, none)
append_to m (some b) d n = append_end b d n (ensure m b (needed b n))

-- `if (*buf == NULL) *buf = ds_create(START_SIZE);`
unfoldable pub opened : Allocator → Option Dynstr → Option Dynstr
opened m none = ds_create m start_size
opened m (some b) = some b

unfoldable pub ds_append :
    Allocator → Option Dynstr → Option (List ℕ) → ℤ → Option (Code × Option Dynstr)
unfolding append_to opened
ds_append m s d n = append_to m (opened m s) d n

-- `-want`
abbrev pub negated : ℕ → ℤ
negated zero = pos 0
negated (suc n) = negsuc n

unfoldable pub shrink_reference : Option Dynstr → ℕ → Option Dynstr
shrink_reference none want = none
shrink_reference (some b) want =
    if ds_readonly b && leb want b.used then some (record b { used = want }) else none

-- The end of `ds_truncate`, behind the case of a reference.
unfoldable pub truncate_end :
    Allocator → Option Dynstr → ℕ → Option Dynstr → Option (Code × Option Dynstr)
unfolding ds_append
truncate_end m s want (some b) = some (value 0, some b)
truncate_end m s want none = ds_append m s none (negated want)

unfoldable pub ds_truncate : Allocator → Option Dynstr → ℤ → Option (Code × Option Dynstr)
unfolding shrink_reference truncate_end
ds_truncate m s (negsuc n) = some (error, s)
ds_truncate m s (pos want) = truncate_end m s want (shrink_reference s want)

-- `i` is not negative
unfoldable pub ds_adjust : Allocator → Option Dynstr → ℕ → ℕ → Option (Option Dynstr)
unfolding ds_truncate ds_len
ds_adjust m s i recsize =
    let want = (i + 1) * recsize in
    let cut = ds_truncate m s (pos want) in
    if ltb (ds_len s) want then (cut >>= λ r. some r.1) else some s

unfoldable pub shift_by : Dynstr → ℕ → Option (Code × Option Dynstr)
shift_by b n =
    let left = b.used - n in
    let readonly = ds_readonly (record b { used = left }) in
    let moved = (do
      str ← move b.str 0 n left
      str' ← store str left 0
      some (value left, some (record b { used = left; str = str' }))) in
    if readonly
    then some (value left, some (record b { used = left; ref = drop n b.ref }))
    else moved

unfoldable pub ds_shift : Option Dynstr → ℤ → Option (Code × Option Dynstr)
unfolding shift_by
ds_shift none n = some (error, none)
ds_shift (some b) (negsuc n) = some (error, some b)
ds_shift (some b) (pos n) = if ltb b.used n then some (error, some b) else shift_by b n
