-- ===== src/Events/Timers.antt =====
-- myts.c: `timeradd_ms`, `timersetmin`, `timerdue`, and the timeout that `mainloop` gives to `select`.
use kindle_myts.Base.{
  ℕ, ◌+◌, ◌-◌, ◌*◌, ◌/◌, ◌%◌, ◌≤◌, ◌<◌, ◌≡◌, arith, Bool, not, ◌&&◌, ◌||◌, Option, some, ◌>>=◌,
  int_value, int_limit, ltb, leb, ◌==◌, if◌then◌else◌, min, Returns, lt→ltb, refl,
}

-- `struct timeval`, of a time after the epoch
pub record Time : Type 0 where
  pub sec : ℕ
  pub usec : ℕ

abbrev pub million : ℕ
million = 1000000

-- `ms` is not negative. A product that no `int` holds is `none`.
unfoldable pub timeradd_ms : Time → ℕ → Option Time
timeradd_ms src ms = do
  step ← int_value (ms * 1000)
  let usec = src.usec + step
  some (record { sec = src.sec + usec / million; usec = usec % million })

-- `timerisset` and `timercmp` of the C library
abbrev pub timerisset : Time → Bool
timerisset t = not (t.sec == 0) || not (t.usec == 0)

abbrev pub timer_before : Time → Time → Bool
timer_before a b = if a.sec == b.sec then ltb a.usec b.usec else ltb a.sec b.sec

abbrev pub timer_until : Time → Time → Bool
timer_until a b = if a.sec == b.sec then leb a.usec b.usec else leb a.sec b.sec

-- the new `dst`
unfoldable pub timersetmin : Time → Time → Time
timersetmin dst cur = if timerisset cur && timer_before cur dst then cur else dst

unfoldable pub timerdue : Time → Time → Bool
timerdue dst now = timerisset dst && timer_until dst now

-- `a.due -= a.now`, with the borrow and the limits of `mainloop`. Where the difference of the seconds
-- is negative both fields become 0.
unfoldable pub select_timeout : Time → Time → Time
select_timeout due now =
    let borrow = ltb due.usec now.usec in
    let usec = if borrow then due.usec + million - now.usec else due.usec - now.usec in
    let from = if borrow then now.sec + 1 else now.sec in
    let sec = due.sec - from in
    if ltb due.sec from
    then record { sec = 0; usec = 0 }
    else record { sec = if ltb 100 sec then 100 else sec; usec = usec }

-- The time in microseconds.
abbrev pub micros : Time → ℕ
micros t = t.sec * million + t.usec

-- The microseconds of a time are less than a second.
abbrev pub IsNormal : Time → Type 0
IsNormal t = t.usec < million

-- On normal times the timers compute with microseconds: adding milliseconds that fit an `int` as
-- microseconds adds them and gives a normal time, the smaller of two times is kept, an unset one not
-- counting, and a set time is due when it is not later than the current one.
pub timers_count :
    (dst src : Time) (ms : ℕ)
    → IsNormal dst
    → IsNormal src
    → ms * 1000 < int_limit
    → Returns (timeradd_ms src ms) (λ t. IsNormal t × (micros t ≡ micros src + ms * 1000))
      × (micros (timersetmin dst src)
          ≡ (if micros src == 0 then micros dst else min (micros dst) (micros src)))
      × (timerdue dst src ≡ (not (micros dst == 0) && leb (micros dst) (micros src)))
unfolding timeradd_ms timersetmin timerdue
timers_count dst src ms n m fits =
    let usec = src.usec + ms * 1000 in
    let in_int = lt→ltb (ms * 1000) int_limit fits in
    (
      (
        record { sec = src.sec + usec / million; usec = usec % million },
        rw in_int refl,
        (omega arith, omega arith),
      ),
      ground arith,
      ground arith,
    )

-- On normal times the timeout is normal and below 101 seconds; it is the time left, and 0 where none
-- is left, except that more than 100 seconds are cut to 100 and the part of a second.
pub select_timeout_lem :
    (due now : Time)
    → IsNormal due
    → IsNormal now
    → let t = select_timeout due now in
      let left = micros due - micros now in
      IsNormal t
      × (t.sec ≤ 100)
      × (micros t ≡ (if ltb left (101 * million) then left else 100 * million + left % million))
unfolding select_timeout
select_timeout_lem due now n m = (ground arith, ground arith, ground arith)
