-- ===== src/Unegg/Times.antt =====
-- times.rs and backend/unegg/times.rs: times as texts. An i64 is the number of its 64 bits, so it is
-- positive where it is not 0 and below 2 ^ 63. The civil time of a second in the process's time zone
-- is a parameter, none where it is out of range.
use zip_mania.Prelude.{
  ℕ, ◌+◌, ◌*◌, ◌-◌, ◌/◌, ◌%◌, ◌^◌, ◌≤◌, ◌<◌, ◌≡◌, refl, arith, ◌&&◌, not, min, Bool, true, false,
  Option, none, some, List, [], ◌∷◌, ◌++◌, leb, ltb, ◌==◌, if◌then◌else◌,
}
use zip_mania.Prelude.Digits.{pad_to}

pub record Civil : Type 0 where
  pub year : ℕ
  pub month : ℕ
  pub day : ℕ
  pub hour : ℕ
  pub minute : ℕ
  pub second : ℕ

-- `format`, the text of a time: `YYYY-MM-DD HH:MM:SS`.
unfoldable pub stamp : Civil → List ℕ
stamp t =
    pad_to 4 t.year
    ++ 0x2D ∷ pad_to 2 t.month
    ++ 0x2D ∷ pad_to 2 t.day
    ++ 0x20 ∷ pad_to 2 t.hour
    ++ 0x3A ∷ pad_to 2 t.minute
    ++ 0x3A ∷ pad_to 2 t.second

-- What the two 16-bit halves of a DOS time say.
unfoldable pub dos_fields : ℕ → Civil
dos_fields dt =
    let date = dt / 2 ^ 16 % 2 ^ 16 in
    let time = dt % 2 ^ 16 in
    record {
      year = 1980 + date / 2 ^ 9 % 128;
      month = date / 2 ^ 5 % 16;
      day = date % 32;
      hour = time / 2 ^ 11 % 32;
      minute = time / 2 ^ 5 % 64;
      second = min (time % 32 * 2) 59;
    }

unfoldable pub is_date : Civil → Bool
is_date t = leb 1 t.month && leb t.month 12 && leb 1 t.day && leb t.day 31

unfoldable pub dos_to_string : ℕ → List ℕ
unfolding dos_fields
dos_to_string dt =
    if dt == 0 then [] else if not (is_date (dos_fields dt)) then [] else stamp (dos_fields dt)

-- The ticks of 100 ns between 1601 and 1970.
abbrev pub filetime_epoch_delta : ℕ
filetime_epoch_delta = 116_444_736_000_000_000

unfoldable pub is_positive : ℕ → Bool
is_positive i = not (i == 0) && ltb i (2 ^ 63)

module _ (civil : ℕ → Option Civil) where
  -- `OffsetDateTime::from_unix_timestamp` and the text, if there is one.
  abbrev shown : Option Civil → List ℕ
  shown none = []
  shown (some t) = stamp t

  unfoldable pub unix_to_local_string : ℕ → List ℕ
  unix_to_local_string sec = if is_positive sec then shown (civil sec) else []

  -- A time before 1970 has a quotient that is not positive; so has the difference cut off at 0.
  unfoldable pub filetime_to_local_string : ℕ → List ℕ
  unfolding unix_to_local_string
  filetime_to_local_string ft =
      if is_positive ft then unix_to_local_string ((ft - filetime_epoch_delta) / 10_000_000) else []

-- A DOS time of these fields, an even number of seconds: seven bits for the years since 1980, four
-- and five for the month and the day, and five, six and five for the time of day.
unfoldable pub pack : Civil → ℕ
pack t =
    ((t.year - 1980) * 2 ^ 9 + t.month * 2 ^ 5 + t.day) * 2 ^ 16
    + (t.hour * 2 ^ 11 + t.minute * 2 ^ 5 + t.second / 2)

-- A time that a DOS time can hold.
pub record IsDos (t : Civil) : Type 0 where
  pub year_low : 1980 ≤ t.year
  pub year_high : t.year < 2108
  pub month_low : 1 ≤ t.month
  pub month_high : t.month ≤ 12
  pub day_low : 1 ≤ t.day
  pub day_high : t.day ≤ 31
  pub hour_high : t.hour < 24
  pub minute_high : t.minute < 60
  pub second_high : t.second < 60
  pub even : t.second % 2 ≡ 0

halves_lem :
    (hi lo : ℕ)
    → hi < 2 ^ 16
    → lo < 2 ^ 16
    → ((hi * 2 ^ 16 + lo) / 2 ^ 16 % 2 ^ 16 ≡ hi) × ((hi * 2 ^ 16 + lo) % 2 ^ 16 ≡ lo)
halves_lem hi lo p q = (omega arith, omega arith)

fields_lem :
    (a b c : ℕ)
    → a < 128
    → b < 16
    → c < 32
    → ((a * 2 ^ 9 + b * 2 ^ 5 + c) / 2 ^ 9 % 128 ≡ a)
      × ((a * 2 ^ 9 + b * 2 ^ 5 + c) / 2 ^ 5 % 16 ≡ b)
      × ((a * 2 ^ 9 + b * 2 ^ 5 + c) % 32 ≡ c)
      × (a * 2 ^ 9 + b * 2 ^ 5 + c < 2 ^ 16)
fields_lem a b c p q r = (omega arith, omega arith, omega arith, omega arith)

clock_lem :
    (a b c : ℕ)
    → a < 32
    → b < 64
    → c < 32
    → ((a * 2 ^ 11 + b * 2 ^ 5 + c) / 2 ^ 11 % 32 ≡ a)
      × ((a * 2 ^ 11 + b * 2 ^ 5 + c) / 2 ^ 5 % 64 ≡ b)
      × ((a * 2 ^ 11 + b * 2 ^ 5 + c) % 32 ≡ c)
      × (a * 2 ^ 11 + b * 2 ^ 5 + c < 2 ^ 16)
clock_lem a b c p q r = (omega arith, omega arith, omega arith, omega arith)

-- The fields of a packed time are the time's.
dos_fields-pack : (t : Civil) → IsDos t → dos_fields (pack t) ≡ t
unfolding dos_fields pack
dos_fields-pack t v =
    let (y, m, d, small) =
      fields_lem (t.year - 1980) t.month t.day (omega (arith, v.year_high))
        (omega (arith, v.month_high)) (omega (arith, v.day_high)) in
    let (h, i, s, few) =
      clock_lem t.hour t.minute (t.second / 2) (omega (arith, v.hour_high))
        (omega (arith, v.minute_high)) (omega (arith, v.second_high)) in
    let (hi, lo) = halves_lem _ _ small few in
    let year : 1980 + (t.year - 1980) ≡ t.year = omega (arith, v.year_low) in
    let second : min (t.second / 2 * 2) 59 ≡ t.second = omega (arith, v.even, v.second_high) in
    rw (hi, lo, y, m, d, h, i, s, year, second) refl

pack-positive : (t : Civil) → IsDos t → 1 ≤ pack t
unfolding pack
pack-positive t v = omega (arith, v.month_low)

not_zero : (n : ℕ) → 1 ≤ n → (n == 0) ≡ false
not_zero n h = ground arith

IsDos-is_date : (t : Civil) → IsDos t → is_date t ≡ true
unfolding is_date
IsDos-is_date t v = ground (arith, v.month_low, v.month_high, v.day_low, v.day_high)

-- The text of a DOS time that packs the fields of a time is that of the time.
pub dos_to_string-pack : (t : Civil) → IsDos t → dos_to_string (pack t) ≡ stamp t
unfolding dos_to_string
dos_to_string-pack t v =
    rw (not_zero (pack t) (pack-positive t v), dos_fields-pack t v, IsDos-is_date t v) refl
