-- ===== src/Client/Clock.antt =====
-- How long the text of `getCurrentTime` is.
use cluster_chat_server_soft.Prelude.{
  ℕ, ◌+◌, ◌≤◌, ◌<◌, arith, length, length-append, ltb, Bool-cases, inl, inr,
}
use cluster_chat_server_soft.Prelude.Text.{decimal-length}
use cluster_chat_server_soft.Client.Screen.{Tm, two_digits, get_current_time}

-- The ranges that C gives the fields, up to the year 9999.
pub record InRange (t : Tm) : Type 0 where
  pub year : t.tm_year + 1900 ≤ 9999
  pub month : t.tm_mon ≤ 11
  pub day : t.tm_mday ≤ 31
  pub hour : t.tm_hour ≤ 23
  pub minute : t.tm_min ≤ 59
  pub second : t.tm_sec ≤ 60

two_digits-length : (n : ℕ) → n < 100 → length (two_digits n) ≤ 2
unfolding two_digits
two_digits-length n h = elim (Bool-cases (ltb n 10)) [
  | inl e ↦ rw e (omega (arith, decimal-length 0 n (ground arith)))
  | inr e ↦ rw e (decimal-length 1 n h)
]

-- The text of a time whose fields are in C's ranges, up to the year 9999, has at most 19 characters: it
-- fits, with its end, the array of 60 that `sprintf` writes it to.
pub get_current_time-length : (t : Tm) → InRange t → length (get_current_time t) ≤ 19
unfolding get_current_time
get_current_time-length t h =
    let y = decimal-length 3 (t.tm_year + 1900) (omega (arith, h.year)) in
    let mo = two_digits-length (t.tm_mon + 1) (omega (arith, h.month)) in
    let d = two_digits-length t.tm_mday (omega (arith, h.day)) in
    let ho = two_digits-length t.tm_hour (omega (arith, h.hour)) in
    let mi = two_digits-length t.tm_min (omega (arith, h.minute)) in
    let se = two_digits-length t.tm_sec (omega (arith, h.second)) in
    simp length-append (omega (arith, y, mo, d, ho, mi, se))
