-- ===== src/Engine/Buffer/Shift.antt =====
-- core/byte_buffer.hpp: bytes are taken away in front.
use kindle_myts.Base.{
  ℕ, ◌+◌, ◌-◌, ◌≤◌, ◌≡◌, refl, arith, false, List, some, ltb, leb, ◌==◌, if◌then◌else◌, inl, inr,
  Bool-cases, length, take, drop, move, get_elem?_ext, get_elem?-take, get_elem?-move,
  get_elem?-drop, move_lem, length-move, Returns, ltb_false→le, ==→eq,
}
use kindle_myts.Engine.Buffer.{ByteBuffer, contents, shift_prefix}
use kindle_myts.Engine.Buffer.Contents.{IsWf}

-- the bytes moved to the front
bytes_shifted :
    (b : ByteBuffer) (n : ℕ) (ys : List ℕ)
    → n ≤ b.size
    → b.size ≤ length b.bytes
    → move b.bytes 0 n (b.size - n) ≡ some ys
    → take (b.size - n) ys ≡ drop n (take b.size b.bytes)
bytes_shifted b n ys h k e = get_elem?_ext _ _ (λ i. elim (Bool-cases (ltb i (b.size - n))) [
  | inl used ↦ ground (
    arith,
    used,
    h,
    k,
    get_elem?-take (b.size - n) ys i,
    get_elem?-move b.bytes 0 n (b.size - n) i e,
    get_elem?-drop n (take b.size b.bytes) i,
    get_elem?-take b.size b.bytes (n + i),
  )
  | inr free ↦ ground (
    arith,
    free,
    h,
    get_elem?-take (b.size - n) ys i,
    get_elem?-drop n (take b.size b.bytes) i,
    get_elem?-take b.size b.bytes (n + i),
  )
])

none_left :
    (b : ByteBuffer) (n : ℕ)
    → n ≤ b.size
    → b.size - n ≤ 0
    → take (b.size - n) b.bytes ≡ drop n (take b.size b.bytes)
none_left b n h z = get_elem?_ext _ _ (λ i. ground (
  arith,
  h,
  z,
  get_elem?-take (b.size - n) b.bytes i,
  get_elem?-drop n (take b.size b.bytes) i,
  get_elem?-take b.size b.bytes (n + i),
))

if_shifted :
    (n : ℕ) (b : ByteBuffer) (xs : List ℕ)
    → ltb b.size n ≡ false
    → xs ≡ drop n (take b.size b.bytes)
    → xs ≡ (if leb n b.size then drop n (contents b) else contents b)
unfolding contents
if_shifted n b xs h e = ground (arith, h, e)

-- `shift_prefix` takes the first bytes away, or reports that there are not so many and changes nothing.
pub shift_prefix-drop :
    (n : ℕ) (b : ByteBuffer)
    → IsWf b
    → Returns (shift_prefix n b) (λ out.
      IsWf out.1
      × (out.0 ≡ leb n b.size)
      × (contents out.1 ≡ (if leb n b.size then drop n (contents b) else contents b)))
unfolding shift_prefix contents
shift_prefix-drop n b w = elim (Bool-cases (ltb b.size n)) [
  | inl few ↦ rw few (_, refl, (w, ground (arith, few), ground (arith, few)))
  | inr enough ↦ elim (Bool-cases (n == 0)) [
    | inl none_off ↦
        let z = ==→eq n 0 none_off in
        rw (enough, none_off) (_, refl, (w, ground (arith, enough), rw z (ground arith)))
    | inr some_off ↦ elim (Bool-cases (ltb 0 (b.size - n))) [
      | inl rest ↦
          let h = ltb_false→le b.size n enough in
          let e =
            move_lem b.bytes 0 n (b.size - n) (omega (arith, w.used)) (omega (arith, w.used, h)) in
          let len = length-move b.bytes 0 n (b.size - n) e in
          rw (enough, some_off, rest)
            (rw e (
              _,
              refl,
              (
                record { used = omega (arith, len, w.used); sized = omega (arith, len, w.sized) },
                ground (arith, h),
                if_shifted n b _ enough (bytes_shifted b n _ h w.used e),
              ),
            ))
      | inr no_rest ↦
          let h = ltb_false→le b.size n enough in
          let z = ltb_false→le 0 (b.size - n) no_rest in
          rw (enough, some_off, no_rest)
            (
              _,
              refl,
              (
                record { used = omega (arith, w.used); sized = w.sized },
                ground (arith, h),
                if_shifted n b _ enough (none_left b n h z),
              ),
            )
    ]
  ]
]
