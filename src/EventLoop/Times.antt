-- ===== src/EventLoop/Times.antt =====
-- The arithmetic on `struct timeval` of libril/ril_event.cpp: timeradd, timercmp and timersub, on
-- times that are not negative.
use platform_hardware_ril.Base.{
  ℕ, ◌+◌, ◌-◌, ◌≡◌, Bool, true, false, arith, ltb, ◌==◌, if◌then◌else◌,
}

pub record Time : Type 0 where
  pub tv_sec : ℕ
  pub tv_usec : ℕ

abbrev pub million : ℕ
million = 1000000

unfoldable pub time_add : Time → Time → Time
time_add a b =
    let sec = a.tv_sec + b.tv_sec in
    let usec = a.tv_usec + b.tv_usec in
    if ltb usec million
    then record { tv_sec = sec; tv_usec = usec }
    else record { tv_sec = sec + 1; tv_usec = usec - million }

-- timercmp(a, b, <); timercmp(a, b, >) is `time_lt b a`
unfoldable pub time_lt : Time → Time → Bool
time_lt a b = if a.tv_sec == b.tv_sec then ltb a.tv_usec b.tv_usec else ltb a.tv_sec b.tv_sec

-- The code calls timersub on a time that is past the other.
unfoldable pub time_sub : Time → Time → Time
time_sub a b =
    if ltb a.tv_usec b.tv_usec
    then record { tv_sec = a.tv_sec - b.tv_sec - 1; tv_usec = a.tv_usec + million - b.tv_usec }
    else record { tv_sec = a.tv_sec - b.tv_sec; tv_usec = a.tv_usec - b.tv_usec }

-- The order is total, and its complement is transitive.
pub time_lt-false : (a b : Time) → time_lt a b ≡ true → time_lt b a ≡ false
unfolding time_lt
time_lt-false a b h = ground arith

pub time_lt_trans : (a b c : Time) → time_lt b a ≡ false → time_lt c b ≡ false → time_lt c a ≡ false
unfolding time_lt
time_lt_trans a b c h k = ground arith
